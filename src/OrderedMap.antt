-- ===== src/OrderedMap.antt =====
-- The insertion-ordered maps of JavaScript: `Map`, and a `Record` whose keys are not array indices.
-- The code's `get`, `has` and `in`, `set` and assignment, `delete`, `keys` and `size`; iteration
-- goes in the order in which the keys were first set, and a key that is set again keeps its place.
pub mod Laws
pub mod Sums
use fisk.Base.{Bool, true, false, Option, none, some, List, [], ◌∷◌, ite}

abbrev pub OrderedMap : Type 0 → Type 0 → Type 0
OrderedMap K V = List (K × V)

abbrev pub keys : {K V : Type 0} → OrderedMap K V → List K
keys [] = []
keys ((k, v) ∷ m) = k ∷ keys m

abbrev pub is_some : {V : Type 0} → Option V → Bool
is_some none = false
is_some (some v) = true

module _ {K V : Type 0} (d : Discrete K) where
  unfoldable pub get : K → OrderedMap K V → Option V
  get k [] = none
  get k ((j, v) ∷ m) = ite (d j k) (some v) (get k m)

  unfoldable pub set : K → V → OrderedMap K V → OrderedMap K V
  set k v [] = (k, v) ∷ []
  set k v ((j, w) ∷ m) = ite (d j k) ((j, v) ∷ m) ((j, w) ∷ set k v m)

  unfoldable pub delete : K → OrderedMap K V → OrderedMap K V
  delete k [] = []
  delete k ((j, v) ∷ m) = ite (d j k) (delete k m) ((j, v) ∷ delete k m)

  abbrev pub has : K → OrderedMap K V → Bool
  has k m = is_some (get k m)
