-- ===== src/Base/Splits.antt =====
-- Two ways to split one list.
use mathlib.Core.Path.{◌≡◌, sym, ap, ◌∙◌}
use mathlib.Core.List.{List, ◌++◌}
use Prim.Native.Nat.{◌≤◌}
use fisk.Base.Lists.{
  length, take, drop, take-append_of_le, drop-append_of_le, take-append_length, drop-append_length,
  append-take-drop,
}

module _ {A : Type 0} where
  -- The longer first part begins with the shorter one.
  pub split-longer :
      (u v a b : List A)
      → u ++ v ≡ a ++ b
      → length a ≤ length u
      → (u ≡ a ++ drop (length a) u) × (drop (length a) u ++ v ≡ b)
  split-longer u v a b e h =
      let front : take (length a) u ≡ a =
        sym (take-append_of_le (length a) u v h)
        ∙ ap (take (length a)) e
        ∙ take-append_length a b in
      (
        sym (append-take-drop (length a) u) ∙ ap (λ xs. xs ++ drop (length a) u) front,
        sym (drop-append_of_le (length a) u v h) ∙ ap (drop (length a)) e ∙ drop-append_length a b,
      )
