-- ===== src/OrderedMap/Laws.antt =====
-- The laws of insertion-ordered maps: lookups after an update, sizes, and the order of the keys.
use fisk.Base.{
  suc, ap, ◌+◌, ◌≤◌, ◌≡◌, refl, none, some, [], ◌∷◌, ◌++◌, ite, arith, if_pos, length,
  length-append,
}
use fisk.OrderedMap.{OrderedMap, keys, get, set, delete}

module _ {K V : Type 0} (d : Discrete K) where
  pub get-set :
      (k j : K) (v : V) (m : OrderedMap K V)
      → get d j (set d k v m) ≡ ite (d k j) (some v) (get d j m)
  unfolding get set
  get-set k j v [] = refl
  get-set k j v ((i, w) ∷ m) = ground (arith, get-set k j v m)

  pub get-delete :
      (k j : K) (m : OrderedMap K V) → get d j (delete d k m) ≡ ite (d k j) none (get d j m)
  unfolding get delete
  get-delete k j [] = ground arith
  get-delete k j ((i, w) ∷ m) = ground (arith, get-delete k j m)

  -- A new key goes to the end.
  pub set_new :
      (k : K) (v : V) (m : OrderedMap K V) → get d k m ≡ none → set d k v m ≡ m ++ (k, v) ∷ []
  unfolding get set
  set_new k v [] h = refl
  set_new k v ((i, w) ∷ m) h = ground (arith, set_new k v m)

  pub delete_absent : (k : K) (m : OrderedMap K V) → get d k m ≡ none → delete d k m ≡ m
  unfolding get delete
  delete_absent k [] h = refl
  delete_absent k ((i, w) ∷ m) h = ground (arith, delete_absent k m)

  pub get-append : (k : K) (m n : OrderedMap K V) → get d k m ≡ none → get d k (m ++ n) ≡ get d k n
  unfolding get
  get-append k [] n h = refl
  get-append k ((i, w) ∷ m) n h = ground (arith, get-append k m n)

  pub delete-append :
      (k : K) (m n : OrderedMap K V) → delete d k (m ++ n) ≡ delete d k m ++ delete d k n
  unfolding delete
  delete-append k [] n = refl
  delete-append k ((i, w) ∷ m) n = ground (arith, delete-append k m n)

  -- No key stands twice.
  abbrev pub IsDistinct : OrderedMap K V → Type 0
  IsDistinct [] = Unit {0}
  IsDistinct ((k, v) ∷ m) = (get d k m ≡ none) × IsDistinct m

  pub set-IsDistinct :
      (k : K) (v : V) (m : OrderedMap K V) → IsDistinct m → IsDistinct (set d k v m)
  unfolding set get
  set-IsDistinct k v [] h = (refl, tt)
  set-IsDistinct k v ((i, w) ∷ m) h = ground (arith, set-IsDistinct k v m h.1, get-set k i v m)

  pub delete-IsDistinct : (k : K) (m : OrderedMap K V) → IsDistinct m → IsDistinct (delete d k m)
  unfolding delete
  delete-IsDistinct k [] h = tt
  delete-IsDistinct k ((i, w) ∷ m) h = ground (arith, delete-IsDistinct k m h.1, get-delete k i m)

  pub length-delete :
      (k : K) (v : V) (m : OrderedMap K V)
      → IsDistinct m
      → get d k m ≡ some v
      → length (delete d k m) + 1 ≡ length m
  unfolding get delete
  length-delete k v [] h e = cc
  length-delete k v ((i, w) ∷ m) h e = elim (d i k) [
    | yes p ↦ ground (arith, delete_absent k m)
    | no p ↦ ground (arith, length-delete k v m h.1)
  ]

  pub length-delete-le : (k : K) (m : OrderedMap K V) → length (delete d k m) ≤ length m
  unfolding delete
  length-delete-le k [] = omega arith
  length-delete-le k ((i, w) ∷ m) = ground (arith, length-delete-le k m)

  pub length-set_new :
      (k : K) (v : V) (m : OrderedMap K V) → get d k m ≡ none → length (set d k v m) ≡ length m + 1
  length-set_new k v m h = rw (set_new k v m h) (omega (arith, length-append m ((k, v) ∷ [])))

  pub length-set-le : (k : K) (v : V) (m : OrderedMap K V) → length (set d k v m) ≤ length m + 1
  unfolding set
  length-set-le k v [] = omega arith
  length-set-le k v ((i, w) ∷ m) = ground (arith, length-set-le k v m)

  pub get-cons_self : (k : K) (v : V) (m : OrderedMap K V) → get d k ((k, v) ∷ m) ≡ some v
  unfolding get
  get-cons_self k v m = rw (if_pos (d k k) refl)

  pub get-set_self : (k : K) (v : V) (m : OrderedMap K V) → get d k (set d k v m) ≡ some v
  get-set_self k v m = rw (get-set k k v m, if_pos (d k k) refl)

  pub get-delete_self : (k : K) (m : OrderedMap K V) → get d k (delete d k m) ≡ none
  get-delete_self k m = rw (get-delete k k m, if_pos (d k k) refl)

  -- Deleting the first key of a map leaves the rest.
  pub delete-cons_self :
      (k : K) (v : V) (m : OrderedMap K V) → IsDistinct ((k, v) ∷ m) → delete d k ((k, v) ∷ m) ≡ m
  unfolding delete
  delete-cons_self k v m h = rw (if_pos (d k k) refl) (delete_absent k m h.0)

module _ {K V : Type 0} where
  pub keys-append : (m n : OrderedMap K V) → keys (m ++ n) ≡ keys m ++ keys n
  keys-append [] n = refl
  keys-append ((k, v) ∷ m) n = ap (◌∷◌ k) (keys-append m n)

  pub length-keys : (m : OrderedMap K V) → length (keys m) ≡ length m
  length-keys [] = refl
  length-keys ((k, v) ∷ m) = ap suc (length-keys m)
