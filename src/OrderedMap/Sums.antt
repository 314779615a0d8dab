-- ===== src/OrderedMap/Sums.antt =====
-- Sums over the values of a map.
use fisk.Base.{ℕ, ◌+◌, ◌≡◌, none, some, [], ◌∷◌, arith}
use fisk.OrderedMap.{OrderedMap, get, set, delete}
use fisk.OrderedMap.Laws.{IsDistinct, delete_absent}

module _ {K V : Type 0} (d : Discrete K) (f : V → ℕ) where
  abbrev pub sum_values : OrderedMap K V → ℕ
  sum_values [] = 0
  sum_values ((k, v) ∷ m) = f v + sum_values m

  pub sum_values-set_new :
      (k : K) (v : V) (m : OrderedMap K V)
      → get d k m ≡ none
      → sum_values (set d k v m) ≡ sum_values m + f v
  unfolding get set
  sum_values-set_new k v [] e = omega arith
  sum_values-set_new k v ((j, w) ∷ m) e = ground (arith, sum_values-set_new k v m)

  pub sum_values-set :
      (k : K) (old v : V) (m : OrderedMap K V)
      → get d k m ≡ some old
      → sum_values (set d k v m) + f old ≡ sum_values m + f v
  unfolding get set
  sum_values-set k old v [] e = ground arith
  sum_values-set k old v ((j, w) ∷ m) e = ground (arith, sum_values-set k old v m)

  pub sum_values-delete :
      (k : K) (old : V) (m : OrderedMap K V)
      → IsDistinct d m
      → get d k m ≡ some old
      → sum_values (delete d k m) + f old ≡ sum_values m
  unfolding get delete
  sum_values-delete k old [] u e = ground arith
  sum_values-delete k old ((j, w) ∷ m) u e =
      ground (arith, sum_values-delete k old m u.1, delete_absent d k m)
