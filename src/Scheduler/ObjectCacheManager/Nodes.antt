-- ===== src/Scheduler/ObjectCacheManager/Nodes.antt =====
-- The entry of each node in the object cache: a node's report changes its own entry only.
use fisk.Base.{
  ℕ, ◌+◌, ◌-◌, String, ◌≡◌, refl, ap, ◌∙◌, ◌≢◌, inl, inr, ite, Bool, true, false, ◌&&◌, List, arith,
  ℕ_discrete, ltb, if◌then◌else◌, Option-cases, length, [],
}
use fisk.OrderedMap.{OrderedMap, get, set}
use fisk.Scheduler.ObjectCacheManager.{
  ObjectCacheManager, NodeData, Message, add_node, remove_node, remove, insert_object,
}
use fisk.Scheduler.ObjectCacheManager.Distribute.{distribute, query_for}
use fisk.Scheduler.ObjectCacheManager.Consistency.{
  sha1s_for, sha1s_of, sha1s_for-set, sha1s_for-delete,
}
use fisk.Scheduler.ObjectCacheManager.Events.{insert, hit, distribute_maps}
use fisk.Scheduler.ObjectCacheManager.Maps.{nodes_for}

-- The two managers differ at most in this node's entry.
abbrev pub OnlyAt : ℕ → ObjectCacheManager → ObjectCacheManager → Type 0
OnlyAt id m m' = (n : ℕ) → id ≢ n → sha1s_for m'.by_node n ≡ sha1s_for m.by_node n

sha1s_for-set_other :
    (m : OrderedMap ℕ NodeData) (node n : ℕ) (d : NodeData)
    → node ≢ n
    → sha1s_for (set ℕ_discrete node d m) n ≡ sha1s_for m n
sha1s_for-set_other m node n d h = ground (arith, h, sha1s_for-set m node n d)

pub add_node-OnlyAt :
    (m : ObjectCacheManager) (node cache_size max_size : ℕ) (xs : List (String × ℕ))
    → OnlyAt node m (add_node m node cache_size max_size xs)
unfolding add_node
add_node-OnlyAt m node cache_size max_size xs n h =
    elim (Option-cases (get ℕ_discrete node m.by_node)) [
      | inl e ↦ rw (e, add_node) (sha1s_for-set_other m.by_node node n _ h)
      | inr (d, e) ↦ rw (e, add_node) refl
    ]

pub remove-OnlyAt :
    (m : ObjectCacheManager) (msg : Message) (node : ℕ) → OnlyAt node m (remove m msg node)
unfolding remove
remove-OnlyAt m msg node n h = elim (Option-cases (get ℕ_discrete node m.by_node)) [
  | inl e ↦ rw (e, remove) refl
  | inr (d, e) ↦ rw (e, remove) (sha1s_for-set_other m.by_node node n _ h)
]

if-by_node :
    (b : Bool) (m m' : ObjectCacheManager)
    → m.by_node ≡ m'.by_node
    → (if b then m else m').by_node ≡ m'.by_node
if-by_node true m m' h = h
if-by_node false m m' h = refl

insert_object-OnlyAt :
    (address : ℕ → String) (m : ObjectCacheManager) (msg : Message) (node : ℕ) (d : NodeData)
    → OnlyAt node m (insert_object address m msg node d)
unfolding insert_object
insert_object-OnlyAt address m msg node d n h = sha1s_for-set_other m.by_node node n _ h

pub insert-OnlyAt :
    (address : ℕ → String) (m : ObjectCacheManager) (msg : Message) (node : ℕ)
    → OnlyAt node m (insert address m msg node)
unfolding insert
insert-OnlyAt address m msg node n h = elim (Option-cases (get ℕ_discrete node m.by_node)) [
  | inl e ↦ rw (e, insert) refl
  | inr (d, e) ↦
      let m' = insert_object address m msg node d in
      rw (e, insert)
        (ap (λ k. sha1s_for k n)
            (if-by_node
              (m.distribute_on_insertion
                && ltb (length (nodes_for m'.by_sha1 msg.sha1) - 1) m.redundancy)
              (distribute address m' (query_for m' msg.sha1)).0 m'
              (distribute_maps address m' (query_for m' msg.sha1)).1)
          ∙ insert_object-OnlyAt address m msg node d n h)
]

-- A cache hit changes no entry.
pub hit-by_node :
    (address : ℕ → String) (m : ObjectCacheManager) (sha1 : String)
    → (hit address m sha1).by_node ≡ m.by_node
unfolding hit
hit-by_node address m sha1 =
    let m' = record m { hits = m.hits + 1 } in
    if-by_node m.distribute_on_cache_hit (distribute address m' (query_for m' sha1)).0 m'
      (distribute_maps address m' (query_for m' sha1)).1

-- A node that is removed has nothing more, and the others keep what they have.
pub sha1s_for-remove_node :
    (address : ℕ → String) (m : ObjectCacheManager) (node n : ℕ)
    → sha1s_for (remove_node address m node).by_node n
      ≡ ite (ℕ_discrete node n) [] (sha1s_for m.by_node n)
unfolding remove_node sha1s_for
sha1s_for-remove_node address m node n = elim (Option-cases (get ℕ_discrete node m.by_node)) [
  | inl e ↦
      rw (e, remove_node)
        (ground (
          arith,
          ap sha1s_of e,
          ap (λ k. sha1s_of (get ℕ_discrete k m.by_node)) {x = node} {y = n},
        ))
  | inr (d, e) ↦ rw (e, remove_node) (sha1s_for-delete m.by_node node n)
]
