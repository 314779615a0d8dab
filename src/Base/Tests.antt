-- ===== src/Base/Tests.antt =====
-- Boolean tests on the native numbers, the conditional, and the decisions on texts and Booleans.
use Prim.Native.Nat.{ℕ, ◌<◌, compare, Ordering}
use Prim.Native.String.{String}
use mathlib.Core.Path.{◌≡◌, refl}
use mathlib.Core.Logic.{◌⊎◌, inl, inr}
use mathlib.Core.Bool.{Bool, true, false}
use mathlib.Core.Option.{Option, none, some}
use native.Mathlib.Omega.{arith}
use text.Mathlib.Text.{◌==◌ as str_eq}
use text.Mathlib.TextEquality.{eq_iff}

abbrev pub ltb : ℕ → ℕ → Bool
ltb a b = elim (compare a b) [ Ordering.lt ↦ true | _ ↦ false ]

abbrev pub leb : ℕ → ℕ → Bool
leb a b = elim (compare a b) [ Ordering.gt ↦ false | _ ↦ true ]

infix 50 ◌==◌
abbrev pub ◌==◌ : ℕ → ℕ → Bool
a == b = elim (compare a b) [ Ordering.eq ↦ true | _ ↦ false ]

infix 1 if◌then◌else◌
abbrev pub if◌then◌else◌ {ℓ} : {A : Type ℓ} → Bool → A → A → A
if true then x else y = x
if false then x else y = y

pub ltb→lt : (a b : ℕ) → ltb a b ≡ true → a < b
ltb→lt a b h = ground arith

pub lt→ltb : (a b : ℕ) → a < b → ltb a b ≡ true
lt→ltb a b h = ground arith

-- To split on a computed value and keep the equation.
pub Bool-cases : (b : Bool) → (b ≡ true) ⊎ (b ≡ false)
Bool-cases true = inl refl
Bool-cases false = inr refl

pub Option-cases {ℓ} : {A : Type ℓ} (o : Option A) → (o ≡ none) ⊎ ((a : A) × (o ≡ some a))
Option-cases none = inl refl
Option-cases (some a) = inr (a, refl)

-- What both branches of a test have, the test has.
pub if-both {ℓ κ} :
    {C : Type ℓ} (Q : C → Type κ) (c : Bool) {m n : C} → Q m → Q n → Q (if c then m else n)
if-both Q true first second = first
if-both Q false first second = second

pub false-ne-true : false ≡ true → ⊥
false-ne-true h = cc

abbrev decide_by {ℓ} :
    {A : Type ℓ} {x y : A} (b : Bool) → (b ≡ true → x ≡ y) → (x ≡ y → b ≡ true) → Dec (x ≡ y)
decide_by true f g = yes (f refl)
decide_by false f g = no (λ e. false-ne-true (g e))

-- `===` on texts, as a decision.
unfoldable pub String_discrete : Discrete String
String_discrete s t = decide_by (str_eq s t) (eq_iff s t).0 (eq_iff s t).1
