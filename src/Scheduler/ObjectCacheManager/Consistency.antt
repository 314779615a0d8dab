-- ===== src/Scheduler/ObjectCacheManager/Consistency.antt =====
-- The two maps of the manager say the same: a node is listed for an object exactly when the object is
-- listed for the node.
use fisk.Base.{
  ℕ, String, ◌≡◌, refl, ap, subst, inl, inr, ite, Bool, false, not, ◌&&◌, ◌||◌, Option, none, some,
  List, [], ◌∷◌, map, arith, ℕ_discrete, Option-cases, String_discrete, holds, take_out, push_new,
  IsUnrepeated, holds-take_out, holds-push_new, take_out-IsUnrepeated, push_new-IsUnrepeated,
  ite-IsUnrepeated,
}
use fisk.OrderedMap.{OrderedMap, get, set, delete}
use fisk.OrderedMap.Laws.{get-set, get-delete}
use fisk.Scheduler.ObjectCacheManager.{
  Sha1Data, NodeData, ObjectCacheManager, Message, add_to_sha1_map, remove_from_sha1_map, add_all,
  remove_all, add_node, remove_node, remove, insert_object, create,
}
use fisk.Scheduler.ObjectCacheManager.Maps.{nodes_for, nodes_for-add, nodes_for-remove}

abbrev pub sha1s_of : Option NodeData → List String
sha1s_of none = []
sha1s_of (some n) = n.sha1s

-- The objects that are listed for a node.
unfoldable pub sha1s_for : OrderedMap ℕ NodeData → ℕ → List String
sha1s_for m n = sha1s_of (get ℕ_discrete n m)

pub record IsConsistent (m : ObjectCacheManager) : Type 0 where
  pub agree :
      (s : String) (n : ℕ)
      → holds ℕ_discrete n (nodes_for m.by_sha1 s) ≡ holds String_discrete s (sha1s_for m.by_node n)
  pub nodes_once : (s : String) → IsUnrepeated ℕ_discrete (nodes_for m.by_sha1 s)
  pub sha1s_once : (n : ℕ) → IsUnrepeated String_discrete (sha1s_for m.by_node n)

pub sha1s_for-set :
    (m : OrderedMap ℕ NodeData) (node n : ℕ) (d : NodeData)
    → sha1s_for (set ℕ_discrete node d m) n ≡ ite (ℕ_discrete node n) d.sha1s (sha1s_for m n)
unfolding sha1s_for
sha1s_for-set m node n d = ground (arith, ap sha1s_of (get-set ℕ_discrete node n d m))

pub sha1s_for-delete :
    (m : OrderedMap ℕ NodeData) (node n : ℕ)
    → sha1s_for (delete ℕ_discrete node m) n ≡ ite (ℕ_discrete node n) [] (sha1s_for m n)
unfolding sha1s_for
sha1s_for-delete m node n = ground (arith, ap sha1s_of (get-delete ℕ_discrete node n m))

add-IsUnrepeated :
    (m : OrderedMap String Sha1Data) (sha1 s : String) (file_size node : ℕ)
    → ((k : String) → IsUnrepeated ℕ_discrete (nodes_for m k))
    → IsUnrepeated ℕ_discrete (nodes_for (add_to_sha1_map m sha1 file_size node) s)
add-IsUnrepeated m sha1 s file_size node h = rw (nodes_for-add m sha1 s file_size node) (
    ite-IsUnrepeated ℕ_discrete (String_discrete sha1 s) _ _
      (push_new-IsUnrepeated ℕ_discrete node (nodes_for m sha1) (h sha1)) (h s))

remove-IsUnrepeated :
    (m : OrderedMap String Sha1Data) (sha1 s : String) (node : ℕ)
    → ((k : String) → IsUnrepeated ℕ_discrete (nodes_for m k))
    → IsUnrepeated ℕ_discrete (nodes_for (remove_from_sha1_map m sha1 node) s)
remove-IsUnrepeated m sha1 s node h = rw (nodes_for-remove m sha1 s node) (
    ite-IsUnrepeated ℕ_discrete (String_discrete sha1 s) _ _
      (take_out-IsUnrepeated ℕ_discrete node (nodes_for m sha1) (h sha1)) (h s))

-- An object that a known node reports goes into both maps.
pub insert_object-IsConsistent :
    (address : ℕ → String) (m : ObjectCacheManager) (msg : Message) (node : ℕ) (d : NodeData)
    → get ℕ_discrete node m.by_node ≡ some d
    → IsConsistent m
    → IsConsistent (insert_object address m msg node d)
unfolding insert_object sha1s_for
insert_object-IsConsistent address m msg node d known h =
    let d' : NodeData = record d {
      sha1s = push_new String_discrete msg.sha1 d.sha1s;
      size = msg.cache_size;
    } in
    let of_node : sha1s_for m.by_node node ≡ d.sha1s = ap sha1s_of known in
    record {
      agree = λ s n. ground (
        arith,
        h.agree s n,
        ap (holds ℕ_discrete n) (nodes_for-add m.by_sha1 msg.sha1 s msg.file_size node),
        ap (holds String_discrete s) (sha1s_for-set m.by_node node n d'),
        holds-push_new ℕ_discrete node n (nodes_for m.by_sha1 msg.sha1),
        holds-push_new String_discrete msg.sha1 s d.sha1s,
        ap (holds String_discrete s) of_node,
        ap (λ k. holds ℕ_discrete n (nodes_for m.by_sha1 k)) {x = msg.sha1} {y = s},
        ap (λ k. holds String_discrete s (sha1s_for m.by_node k)) {x = node} {y = n},
      );
      nodes_once = λ s. add-IsUnrepeated m.by_sha1 msg.sha1 s msg.file_size node h.nodes_once;
      sha1s_once = λ n. rw (sha1s_for-set m.by_node node n d') (
          ite-IsUnrepeated String_discrete (ℕ_discrete node n) d'.sha1s (sha1s_for m.by_node n)
            (push_new-IsUnrepeated String_discrete msg.sha1 d.sha1s
              (subst (IsUnrepeated String_discrete) of_node (h.sha1s_once node)))
            (h.sha1s_once n));
    }

-- A report that a node has an object no more keeps the maps consistent, whether the node or the object
-- were known or not.
pub remove-IsConsistent :
    (m : ObjectCacheManager) (msg : Message) (node : ℕ)
    → IsConsistent m
    → IsConsistent (remove m msg node)
unfolding remove sha1s_for
remove-IsConsistent m msg node h = elim (Option-cases (get ℕ_discrete node m.by_node)) [
  | inl missing ↦ rw (missing, remove) h
  | inr (d, known) ↦
      let d' : NodeData = record d {
        sha1s = take_out String_discrete msg.sha1 d.sha1s;
        size = msg.cache_size;
      } in
      let of_node : sha1s_for m.by_node node ≡ d.sha1s = ap sha1s_of known in
      let once : IsUnrepeated String_discrete d.sha1s =
        subst (IsUnrepeated String_discrete) of_node (h.sha1s_once node) in
      rw (known, remove)
        (record {
          agree = λ s n. ground (
            arith,
            h.agree s n,
            ap (holds ℕ_discrete n) (nodes_for-remove m.by_sha1 msg.sha1 s node),
            ap (holds String_discrete s) (sha1s_for-set m.by_node node n d'),
            holds-take_out ℕ_discrete node n (nodes_for m.by_sha1 msg.sha1) (h.nodes_once msg.sha1),
            holds-take_out String_discrete msg.sha1 s d.sha1s once,
            ap (holds String_discrete s) of_node,
            ap (λ k. holds ℕ_discrete n (nodes_for m.by_sha1 k)) {x = msg.sha1} {y = s},
            ap (λ k. holds String_discrete s (sha1s_for m.by_node k)) {x = node} {y = n},
          );
          nodes_once = λ s. remove-IsUnrepeated m.by_sha1 msg.sha1 s node h.nodes_once;
          sha1s_once = λ n. rw (sha1s_for-set m.by_node node n d') (
              ite-IsUnrepeated String_discrete (ℕ_discrete node n) d'.sha1s (sha1s_for m.by_node n)
                (take_out-IsUnrepeated String_discrete msg.sha1 d.sha1s once) (h.sha1s_once n));
        })
]

-- Removing a node takes it from each of its objects.
remove_all-IsUnrepeated :
    (m : OrderedMap String Sha1Data) (xs : List String) (node : ℕ)
    → ((k : String) → IsUnrepeated ℕ_discrete (nodes_for m k))
    → (s : String) → IsUnrepeated ℕ_discrete (nodes_for (remove_all m xs node) s)
unfolding remove_all
remove_all-IsUnrepeated m [] node h s = h s
remove_all-IsUnrepeated m (x ∷ xs) node h s =
    remove_all-IsUnrepeated (remove_from_sha1_map m x node) xs node
      (λ k. remove-IsUnrepeated m x k node h) s

holds-remove_all :
    (m : OrderedMap String Sha1Data) (xs : List String) (node n : ℕ) (s : String)
    → ((k : String) → IsUnrepeated ℕ_discrete (nodes_for m k))
    → holds ℕ_discrete n (nodes_for (remove_all m xs node) s)
      ≡ holds ℕ_discrete n (nodes_for m s)
        && not (ite (ℕ_discrete node n) (holds String_discrete s xs) false)
unfolding remove_all
holds-remove_all m [] node n s h = ground arith
holds-remove_all m (x ∷ xs) node n s h = ground (
  arith,
  holds-remove_all (remove_from_sha1_map m x node) xs node n s
      (λ k. remove-IsUnrepeated m x k node h),
  ap (holds ℕ_discrete n) (nodes_for-remove m x s node),
  holds-take_out ℕ_discrete node n (nodes_for m x) (h x),
  ap (λ k. holds ℕ_discrete n (nodes_for m k)) {x = x} {y = s},
)

-- When a node goes, both maps forget it.
pub remove_node-IsConsistent :
    (address : ℕ → String) (m : ObjectCacheManager) (node : ℕ)
    → IsConsistent m
    → IsConsistent (remove_node address m node)
unfolding remove_node sha1s_for
remove_node-IsConsistent address m node h = elim (Option-cases (get ℕ_discrete node m.by_node)) [
  | inl missing ↦ rw (missing, remove_node) h
  | inr (d, known) ↦
      let of_node : sha1s_for m.by_node node ≡ d.sha1s = ap sha1s_of known in
      rw (known, remove_node)
        (record {
          agree = λ s n. ground (
            arith,
            h.agree s n,
            holds-remove_all m.by_sha1 d.sha1s node n s h.nodes_once,
            ap sha1s_of (get-delete ℕ_discrete node n m.by_node),
            ap (holds String_discrete s) of_node,
            ap (λ k. holds String_discrete s (sha1s_for m.by_node k)) {x = node} {y = n},
          );
          nodes_once = remove_all-IsUnrepeated m.by_sha1 d.sha1s node h.nodes_once;
          sha1s_once = λ n. rw (sha1s_for-delete m.by_node node n) (
              ite-IsUnrepeated String_discrete (ℕ_discrete node n) [] (sha1s_for m.by_node n) tt
                (h.sha1s_once n));
        })
]

add_all-IsUnrepeated :
    (m : OrderedMap String Sha1Data) (xs : List (String × ℕ)) (node : ℕ)
    → ((k : String) → IsUnrepeated ℕ_discrete (nodes_for m k))
    → (s : String) → IsUnrepeated ℕ_discrete (nodes_for (add_all m xs node) s)
unfolding add_all
add_all-IsUnrepeated m [] node h s = h s
add_all-IsUnrepeated m ((x, size) ∷ xs) node h s =
    add_all-IsUnrepeated (add_to_sha1_map m x size node) xs node
      (λ k. add-IsUnrepeated m x k size node h) s

abbrev pub sha1s_in : List (String × ℕ) → List String
sha1s_in = map (λ e. e.0)

holds-add_all :
    (m : OrderedMap String Sha1Data) (xs : List (String × ℕ)) (node n : ℕ) (s : String)
    → holds ℕ_discrete n (nodes_for (add_all m xs node) s)
      ≡ holds ℕ_discrete n (nodes_for m s)
        || ite (ℕ_discrete node n) (holds String_discrete s (sha1s_in xs)) false
unfolding add_all
holds-add_all m [] node n s = ground arith
holds-add_all m ((x, size) ∷ xs) node n s = ground (
  arith,
  holds-add_all (add_to_sha1_map m x size node) xs node n s,
  ap (holds ℕ_discrete n) (nodes_for-add m x s size node),
  holds-push_new ℕ_discrete node n (nodes_for m x),
  ap (λ k. holds ℕ_discrete n (nodes_for m k)) {x = x} {y = s},
)

-- When a node comes with its objects, no sha1 of them twice, both maps get them; a node that is there
-- already changes nothing.
pub add_node-IsConsistent :
    (m : ObjectCacheManager) (node cache_size max_size : ℕ) (xs : List (String × ℕ))
    → IsUnrepeated String_discrete (sha1s_in xs)
    → IsConsistent m
    → IsConsistent (add_node m node cache_size max_size xs)
unfolding add_node sha1s_for
add_node-IsConsistent m node cache_size max_size xs distinct h =
    elim (Option-cases (get ℕ_discrete node m.by_node)) [
      | inr (d, known) ↦ rw (known, add_node) h
      | inl missing ↦
          let d' : NodeData = record {
            size = cache_size;
            max_size = max_size;
            sha1s = sha1s_in xs;
          } in
          let of_node : sha1s_for m.by_node node ≡ [] = ap sha1s_of missing in
          rw (missing, add_node)
            (record {
              agree = λ s n. ground (
                arith,
                h.agree s n,
                holds-add_all m.by_sha1 xs node n s,
                ap (holds String_discrete s) (sha1s_for-set m.by_node node n d'),
                ap (holds String_discrete s) of_node,
                ap (λ k. holds String_discrete s (sha1s_for m.by_node k)) {x = node} {y = n},
              );
              nodes_once = add_all-IsUnrepeated m.by_sha1 xs node h.nodes_once;
              sha1s_once = λ n. rw (sha1s_for-set m.by_node node n d') (
                  ite-IsUnrepeated String_discrete (ℕ_discrete node n) (sha1s_in xs)
                    (sha1s_for m.by_node n) distinct (h.sha1s_once n));
            })
    ]

-- The manager starts with two consistent maps.
pub create-IsConsistent :
    (on_insertion on_cache_hit : Bool) (redundancy : ℕ)
    → IsConsistent (create on_insertion on_cache_hit redundancy)
unfolding create sha1s_for nodes_for get
create-IsConsistent on_insertion on_cache_hit redundancy = record {
  agree = λ s n. refl;
  nodes_once = λ s. tt;
  sha1s_once = λ n. tt;
}
