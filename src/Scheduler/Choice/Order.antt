-- ===== src/Scheduler/Choice/Order.antt =====
-- Which of two builders is better for a compile, and that this is an order.
use fisk.Base.{
  ℕ, String, ◌≡◌, refl, Bool, true, false, not, ◌&&◌, ◌||◌, Option, none, some, List, ◌∷◌, arith,
  if◌then◌else◌, [],
}
use fisk.Scheduler.Builder.{Builder}
use fisk.Scheduler.Choice.{
  Compile, Choice, score, filter_builder, is_better, chosen, candidate_env, consider_node, try_envs,
  consider_builder,
}

-- Both searches try the first usable environment that the builder has.
pub consider_builder-eq-consider_node :
    (c : Compile) (usable : List String) (best : Option Choice) (s : ℕ × Builder)
    → consider_builder c usable best s ≡ consider_node c usable best s
unfolding consider_builder consider_node try_envs candidate_env
consider_builder-eq-consider_node c usable best (id, s) = ground (arith, tries usable)
  where
    tries :
        (es : List String)
        → try_envs es id s best ≡ elim (candidate_env es s) [
          | none ↦ best
          | some e ↦ if is_better s best then some (chosen id s e) else best
        ]
    tries [] = refl
    tries (e ∷ es) = ground (arith, tries es)

-- Whether a builder may get the compile: it is one that was asked for, and has a usable environment.
unfoldable pub eligible : Compile → List String → ℕ × Builder → Bool
eligible c usable (id, s) =
    filter_builder c s && elim (candidate_env usable s) [ none ↦ false | some e ↦ true ]

-- The builder may not get the compile, or is not better than the chosen one.
unfoldable pub covered : Compile → List String → Option Choice → ℕ × Builder → Bool
unfolding eligible
covered c usable r (id, s) =
    not (eligible c usable (id, s)) || elim r [ none ↦ false | some k ↦ not (is_better s (some k)) ]

abbrev pub AllCovered : Compile → List String → Option Choice → List (ℕ × Builder) → Type 0
AllCovered c usable r [] = Unit {0}
AllCovered c usable r (s ∷ ss) = (covered c usable r s ≡ true) × AllCovered c usable r ss

-- A choice has its builder's score, and an environment that the builder has.
abbrev pub IsHonest : Compile → List String → Option Choice → Type 0
IsHonest c usable none = Unit {0}
IsHonest c usable (some k) =
    (k.best_score ≡ score k.builder)
    × (filter_builder c k.builder ≡ true)
    × (candidate_env usable k.builder ≡ some k.env)

abbrev pub Keeps : Option Choice → Option Choice → Type 0
Keeps none r = Unit {0}
Keeps (some b) none = ⊥
Keeps (some b) (some k) = is_better b.builder (some k) ≡ false

pub is_better_irrefl :
    (k : Choice) → k.best_score ≡ score k.builder → is_better k.builder (some k) ≡ false
unfolding is_better
is_better_irrefl k h = ground (arith, h)

pub is_better_trans :
    (s : Builder) (k m : Choice)
    → k.best_score ≡ score k.builder
    → is_better s (some k) ≡ false
    → is_better k.builder (some m) ≡ false
    → is_better s (some m) ≡ false
unfolding is_better
is_better_trans s k m h p q = ground (arith, h, p, q)

-- A better builder takes the place of the chosen one, which is not better than it.
pub replaced_not_better :
    (s : Builder) (id : ℕ) (e : String) (b : Choice)
    → b.best_score ≡ score b.builder
    → is_better s (some b) ≡ true
    → is_better b.builder (some (chosen id s e)) ≡ false
unfolding is_better
replaced_not_better s id e b h p = ground (arith, h, p)

pub covered_later :
    (c : Compile) (usable : List String) (r r' : Option Choice) (s : ℕ × Builder)
    → IsHonest c usable r
    → Keeps r r'
    → covered c usable r s ≡ true
    → covered c usable r' s ≡ true
unfolding covered
covered_later c usable none r' (id, s) h k p = ground (arith, p)
covered_later c usable (some b) none (id, s) h k p = absurd k
covered_later c usable (some b) (some m) (id, s) h k p =
    ground (arith, p, is_better_trans s b m h.0)

pub Keeps-trans :
    (c : Compile) (usable : List String) (r r' r'' : Option Choice)
    → IsHonest c usable r'
    → Keeps r r'
    → Keeps r' r''
    → Keeps r r''
Keeps-trans c usable none r' r'' h p q = tt
Keeps-trans c usable (some b) none r'' h p q = absurd p
Keeps-trans c usable (some b) (some k) none h p q = absurd q
Keeps-trans c usable (some b) (some k) (some m) h p q = is_better_trans b.builder k m h.0 p q

pub Keeps-self :
    (c : Compile) (usable : List String) (r : Option Choice) → IsHonest c usable r → Keeps r r
Keeps-self c usable none h = tt
Keeps-self c usable (some k) h = is_better_irrefl k h.0
