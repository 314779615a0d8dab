-- ===== src/Base/Members.antt =====
-- Membership in lists without repetition, as the code's `indexOf` and `splice` see it.
use mathlib.Core.Path.{◌≡◌, refl}
use mathlib.Core.Bool.{Bool, true, false}
use mathlib.Core.Logic.{ite}
use mathlib.Core.List.{List, [], ◌∷◌}
use native.Mathlib.Omega.{arith}

module _ {A : Type 0} (d : Discrete A) where
  -- xs.indexOf(x) !== -1
  abbrev pub holds : A → List A → Bool
  holds x [] = false
  holds x (y ∷ ys) = ite (d y x) true (holds x ys)

  -- xs.splice(xs.indexOf(x), 1), if x is there
  unfoldable pub take_out : A → List A → List A
  take_out x [] = []
  take_out x (y ∷ ys) = ite (d y x) ys (y ∷ take_out x ys)

  -- if (xs.indexOf(x) === -1) xs.push(x)
  unfoldable pub push_new : A → List A → List A
  push_new x [] = x ∷ []
  push_new x (y ∷ ys) = ite (d y x) (y ∷ ys) (y ∷ push_new x ys)

  abbrev pub IsUnrepeated : List A → Type 0
  IsUnrepeated [] = Unit {0}
  IsUnrepeated (x ∷ xs) = (holds x xs ≡ false) × IsUnrepeated xs

  pub holds-take_out :
      (x y : A) (xs : List A)
      → IsUnrepeated xs
      → holds y (take_out x xs) ≡ ite (d x y) false (holds y xs)
  unfolding take_out
  holds-take_out x y [] h = ground arith
  holds-take_out x y (z ∷ zs) h = ground (arith, holds-take_out x y zs h.1, h.0)

  pub holds-push_new :
      (x y : A) (xs : List A) → holds y (push_new x xs) ≡ ite (d x y) true (holds y xs)
  unfolding push_new
  holds-push_new x y [] = refl
  holds-push_new x y (z ∷ zs) = ground (arith, holds-push_new x y zs)

  pub take_out-IsUnrepeated : (x : A) (xs : List A) → IsUnrepeated xs → IsUnrepeated (take_out x xs)
  unfolding take_out
  take_out-IsUnrepeated x [] h = tt
  take_out-IsUnrepeated x (z ∷ zs) h =
      ground (arith, holds-take_out x z zs h.1, take_out-IsUnrepeated x zs h.1, h.0)

  pub push_new-IsUnrepeated : (x : A) (xs : List A) → IsUnrepeated xs → IsUnrepeated (push_new x xs)
  unfolding push_new
  push_new-IsUnrepeated x [] h = (refl, tt)
  push_new-IsUnrepeated x (z ∷ zs) h =
      ground (arith, holds-push_new x z zs, push_new-IsUnrepeated x zs h.1, h.0)

  pub take_out_absent : (x : A) (xs : List A) → holds x xs ≡ false → take_out x xs ≡ xs
  unfolding take_out
  take_out_absent x [] h = refl
  take_out_absent x (z ∷ zs) h = ground (arith, take_out_absent x zs)

  pub ite-IsUnrepeated :
      {Q : Type 0} (c : Dec Q) (xs ys : List A)
      → IsUnrepeated xs
      → IsUnrepeated ys
      → IsUnrepeated (ite c xs ys)
  ite-IsUnrepeated (yes q) xs ys h k = h
  ite-IsUnrepeated (no q) xs ys h k = k
