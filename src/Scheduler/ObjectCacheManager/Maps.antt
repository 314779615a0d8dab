-- ===== src/Scheduler/ObjectCacheManager/Maps.antt =====
-- The map from objects to nodes, after an addition and a removal.
use fisk.Base.{
  ℕ, String, ◌≡◌, refl, ap, ite, true, Option, none, some, List, [], ◌∷◌, arith, ℕ_discrete,
  String_discrete, is_empty, take_out, push_new, take_out_absent,
}
use fisk.OrderedMap.{OrderedMap, get}
use fisk.OrderedMap.Laws.{get-set, get-delete}
use fisk.Scheduler.ObjectCacheManager.{
  Sha1Data, added_to, add_to_sha1_map, removed_from, remove_from_sha1_map,
}

abbrev pub nodes_of : Option Sha1Data → List ℕ
nodes_of none = []
nodes_of (some data_of) = data_of.nodes

-- The nodes that are listed for an object.
unfoldable pub nodes_for : OrderedMap String Sha1Data → String → List ℕ
nodes_for m s = nodes_of (get String_discrete s m)

nodes_of-added_to :
    (o : Option Sha1Data) (file_size node : ℕ)
    → (added_to o file_size node).nodes ≡ push_new ℕ_discrete node (nodes_of o)
unfolding push_new
nodes_of-added_to none file_size node = refl
nodes_of-added_to (some data_of) file_size node = refl

pub nodes_for-add :
    (m : OrderedMap String Sha1Data) (sha1 s : String) (file_size node : ℕ)
    → nodes_for (add_to_sha1_map m sha1 file_size node) s
      ≡ ite (String_discrete sha1 s) (push_new ℕ_discrete node (nodes_for m sha1)) (nodes_for m s)
unfolding nodes_for add_to_sha1_map
nodes_for-add m sha1 s file_size node =
    let o = get String_discrete sha1 m in
    ground (
      arith,
      ap nodes_of (get-set String_discrete sha1 s (added_to o file_size node) m),
      nodes_of-added_to o file_size node,
    )

empty_nil : (xs : List ℕ) → is_empty xs ≡ true → xs ≡ []
empty_nil [] h = refl
empty_nil (x ∷ xs) h = cc

removed_from-entry :
    (m : OrderedMap String Sha1Data) (sha1 s : String) (o : Option Sha1Data) (node : ℕ)
    → get String_discrete sha1 m ≡ o
    → nodes_of (get String_discrete s (removed_from m sha1 o node))
      ≡ ite
          (String_discrete sha1 s)
          (take_out ℕ_discrete node (nodes_of o))
          (nodes_of (get String_discrete s m))
unfolding take_out
removed_from-entry m sha1 s none node h =
    ground (arith, h, ap (λ k. nodes_of (get String_discrete k m)) {x = sha1} {y = s})
removed_from-entry m sha1 s (some data_of) node h =
    let left = take_out ℕ_discrete node data_of.nodes in
    ground (
      arith,
      h,
      ap (λ k. nodes_of (get String_discrete k m)) {x = sha1} {y = s},
      ap nodes_of (get-set String_discrete sha1 s (record data_of { nodes = left }) m),
      ap nodes_of (get-delete String_discrete sha1 s m),
      empty_nil left,
      take_out_absent ℕ_discrete node data_of.nodes,
    )

pub nodes_for-remove :
    (m : OrderedMap String Sha1Data) (sha1 s : String) (node : ℕ)
    → nodes_for (remove_from_sha1_map m sha1 node) s
      ≡ ite (String_discrete sha1 s) (take_out ℕ_discrete node (nodes_for m sha1)) (nodes_for m s)
unfolding nodes_for remove_from_sha1_map
nodes_for-remove m sha1 s node = removed_from-entry m sha1 s (get String_discrete sha1 m) node refl
