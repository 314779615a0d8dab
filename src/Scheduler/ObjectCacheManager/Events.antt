-- ===== src/Scheduler/ObjectCacheManager/Events.antt =====
-- The manager's methods as the scheduler calls them, in any order.
use fisk.Base.{
  ℕ, ◌+◌, ◌-◌, String, ◌≡◌, refl, inl, inr, Bool, true, false, ◌&&◌, none, some, List, [], ◌∷◌,
  arith, ℕ_discrete, ltb, if◌then◌else◌, Option-cases, String_discrete, length, IsUnrepeated,
}
use fisk.OrderedMap.{get}
use fisk.Scheduler.ObjectCacheManager.{
  ObjectCacheManager, Message, add_node, remove_node, remove, insert_object, clear, clear_pending,
}
use fisk.Scheduler.ObjectCacheManager.Maps.{nodes_for}
use fisk.Scheduler.ObjectCacheManager.Consistency.{
  IsConsistent, sha1s_in, insert_object-IsConsistent, remove-IsConsistent, remove_node-IsConsistent,
  add_node-IsConsistent,
}
use fisk.Scheduler.ObjectCacheManager.Distribute.{Query, distribute, query_for}

unfoldable pub hit : (ℕ → String) → ObjectCacheManager → String → ObjectCacheManager
unfolding distribute
hit address m sha1 =
    let m' = record m { hits = m.hits + 1 } in
    if m.distribute_on_cache_hit then (distribute address m' (query_for m' sha1)).0 else m'

-- `insert`; `count` is the length of the object's nodes.
unfoldable pub insert : (ℕ → String) → ObjectCacheManager → Message → ℕ → ObjectCacheManager
unfolding distribute insert_object nodes_for
insert address m msg node = elim (get ℕ_discrete node m.by_node) [
  | none ↦ m
  | some n ↦
      let m' = insert_object address m msg node n in
      let count = length (nodes_for m'.by_sha1 msg.sha1) in
      if m.distribute_on_insertion && ltb (count - 1) m.redundancy
      then (distribute address m' (query_for m' msg.sha1)).0
      else m'
]

pub data Event : Type 0 where
  node_added : ℕ → ℕ → ℕ → List (String × ℕ) → Event
  node_removed : ℕ → Event
  inserted removed : Message → ℕ → Event
  cache_hit : String → Event
  cleared : Event
  distributed : Query → Event
  transfer_timeout : String → String → Event

unfoldable pub step : (ℕ → String) → ObjectCacheManager → Event → ObjectCacheManager
step address m (node_added node cache_size max_size sha1s) =
    add_node m node cache_size max_size sha1s
step address m (node_removed node) = remove_node address m node
step address m (inserted msg node) = insert address m msg node
step address m (removed msg node) = remove m msg node
step address m (cache_hit sha1) = hit address m sha1
step address m cleared = clear m
step address m (distributed q) = (distribute address m q).0
step address m (transfer_timeout sha1 addr) = record m {
  pending_transfers = clear_pending sha1 addr m.pending_transfers;
}

unfoldable pub run : (ℕ → String) → ObjectCacheManager → List Event → ObjectCacheManager
run address m [] = m
run address m (e ∷ es) = run address (step address m e) es

-- A node names each of its objects once, as the keys of an object do.
abbrev pub IsWellFormed : List Event → Type 0
IsWellFormed [] = Unit {0}
IsWellFormed (node_added node cache_size max_size sha1s ∷ es) =
    IsUnrepeated String_discrete (sha1s_in sha1s) × IsWellFormed es
IsWellFormed (e ∷ es) = IsWellFormed es

pub same_maps :
    (m m' : ObjectCacheManager)
    → m'.by_sha1 ≡ m.by_sha1
    → m'.by_node ≡ m.by_node
    → IsConsistent m
    → IsConsistent m'
same_maps m m' sha1s nodes h = record {
  agree = λ s n. rw (sha1s, nodes) (h.agree s n);
  nodes_once = λ s. rw sha1s (h.nodes_once s);
  sha1s_once = λ n. rw nodes (h.sha1s_once n);
}

pub distribute_maps :
    (address : ℕ → String) (m : ObjectCacheManager) (q : Query)
    → ((distribute address m q).0.by_sha1 ≡ m.by_sha1)
      × ((distribute address m q).0.by_node ≡ m.by_node)
unfolding distribute
distribute_maps address m q = ground arith

distribute-IsConsistent :
    (address : ℕ → String) (m : ObjectCacheManager) (q : Query)
    → IsConsistent m
    → IsConsistent (distribute address m q).0
distribute-IsConsistent address m q h =
    same_maps m (distribute address m q).0 (distribute_maps address m q).0
      (distribute_maps address m q).1 h

if-IsConsistent :
    (b : Bool) (m m' : ObjectCacheManager)
    → IsConsistent m
    → IsConsistent m'
    → IsConsistent (if b then m else m')
if-IsConsistent true m m' h h' = h
if-IsConsistent false m m' h h' = h'

pub insert-IsConsistent :
    (address : ℕ → String) (m : ObjectCacheManager) (msg : Message) (node : ℕ)
    → IsConsistent m
    → IsConsistent (insert address m msg node)
unfolding insert
insert-IsConsistent address m msg node h = elim (Option-cases (get ℕ_discrete node m.by_node)) [
  | inl missing ↦ rw (missing, insert) h
  | inr (d, known) ↦
      let m' = insert_object address m msg node d in
      let h' = insert_object-IsConsistent address m msg node d known h in
      let q = query_for m' msg.sha1 in
      rw (known, insert)
        (if-IsConsistent
          (m.distribute_on_insertion
            && ltb (length (nodes_for m'.by_sha1 msg.sha1) - 1) m.redundancy)
          (distribute address m' q).0 m' (distribute-IsConsistent address m' q h') h')
]

pub hit-IsConsistent :
    (address : ℕ → String) (m : ObjectCacheManager) (sha1 : String)
    → IsConsistent m
    → IsConsistent (hit address m sha1)
unfolding hit
hit-IsConsistent address m sha1 h =
    let m' = record m { hits = m.hits + 1 } in
    let h' : IsConsistent m' = same_maps m m' refl refl h in
    let q = query_for m' sha1 in
    if-IsConsistent m.distribute_on_cache_hit (distribute address m' q).0 m'
      (distribute-IsConsistent address m' q h') h'

-- From two consistent maps, each node listed for an object exactly when the object is listed for it
-- and none twice, whatever the nodes report and whatever is distributed in any order, if a new node
-- names each of its objects once, the two maps stay consistent.
pub run-IsConsistent :
    (address : ℕ → String) (m : ObjectCacheManager) (es : List Event)
    → IsWellFormed es
    → IsConsistent m
    → IsConsistent (run address m es)
unfolding run step clear
run-IsConsistent address m [] w h = h
run-IsConsistent address m (node_added node cache_size max_size xs ∷ es) w h =
    run-IsConsistent address _ es w.1 (add_node-IsConsistent m node cache_size max_size xs w.0 h)
run-IsConsistent address m (node_removed node ∷ es) w h =
    run-IsConsistent address _ es w (remove_node-IsConsistent address m node h)
run-IsConsistent address m (inserted msg node ∷ es) w h =
    run-IsConsistent address _ es w (insert-IsConsistent address m msg node h)
run-IsConsistent address m (removed msg node ∷ es) w h =
    run-IsConsistent address _ es w (remove-IsConsistent m msg node h)
run-IsConsistent address m (cache_hit sha1 ∷ es) w h =
    run-IsConsistent address _ es w (hit-IsConsistent address m sha1 h)
run-IsConsistent address m (cleared ∷ es) w h =
    run-IsConsistent address (clear m) es w (same_maps m (clear m) refl refl h)
run-IsConsistent address m (distributed q ∷ es) w h =
    run-IsConsistent address _ es w (distribute-IsConsistent address m q h)
run-IsConsistent address m (transfer_timeout sha1 addr ∷ es) w h =
    run-IsConsistent address _ es w (same_maps m _ refl refl h)
