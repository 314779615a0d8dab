-- ===== src/Scheduler/Choice/Best.antt =====
-- The builder that is chosen is a best one of those that may get the compile.
use fisk.Base.{
  ℕ, String, ◌≡◌, sym, subst, ◌∙◌, ◌⊎◌, inl, inr, Bool, false, ◌&&◌, ◌||◌, none, some, List, ◌∷◌,
  arith, ltb, Option-cases, [],
}
use fisk.Scheduler.Builder.{Builder}
use fisk.Scheduler.Choice.{Compile, Choice, score, is_better, above, level, best_node, choose}
use fisk.Scheduler.Choice.Order.{AllCovered, IsHonest, covered, eligible}
use fisk.Scheduler.Choice.Search.{
  IsOneOf, best_builder-eq-best_node, best_node-Searched, best_node_from,
}

-- The score is higher, or it is the same and the last job is longer ago.
unfoldable pub outranks : Builder → Builder → Bool
outranks s t = above (score s) (score t) || (level (score s) (score t) && ltb s.last_job t.last_job)

-- No builder of the list that may get the compile outranks the chosen one.
abbrev pub Unbeaten : Compile → List String → Choice → List (ℕ × Builder) → Type 0
Unbeaten c usable k [] = Unit {0}
Unbeaten c usable k (s ∷ ss) =
    (eligible c usable s && outranks s.1 k.builder ≡ false) × Unbeaten c usable k ss

unbeaten :
    (c : Compile) (usable : List String) (k : Choice) (l : List (ℕ × Builder))
    → k.best_score ≡ score k.builder
    → AllCovered c usable (some k) l
    → Unbeaten c usable k l
unfolding covered is_better outranks
unbeaten c usable k [] h w = tt
unbeaten c usable k ((id, s) ∷ ss) h w = (ground (arith, h, w.0), unbeaten c usable k ss h w.1)

-- A best one of a list: one of it that may get the compile, with an environment that it has, and no
-- other of the list that may get the compile is better.
pub record IsBest (c : Compile) (usable : List String) (k : Choice) (l : List (ℕ × Builder))
    : Type 0 where
  pub one : IsOneOf k l
  pub honest : IsHonest c usable (some k)
  pub best : Unbeaten c usable k l

best_node-IsBest :
    (c : Compile) (usable : List String) (l : List (ℕ × Builder)) (k : Choice)
    → best_node c usable none l ≡ some k
    → IsBest c usable k l
best_node-IsBest c usable l k h =
    let s = best_node-Searched c usable none l tt in
    record {
      one = elim (best_node_from c usable none l k h) [ inl e ↦ absurd (cc) | inr p ↦ p ];
      honest = subst (IsHonest c usable) h s.honest;
      best =
          unbeaten c usable k l (subst (IsHonest c usable) h s.honest).0
            (subst (λ r. AllCovered c usable r l) h s.all_covered);
    }

-- No builder of the list may get the compile.
abbrev pub NoneEligible : Compile → List String → List (ℕ × Builder) → Type 0
NoneEligible c usable [] = Unit {0}
NoneEligible c usable (s ∷ ss) = (eligible c usable s ≡ false) × NoneEligible c usable ss

covered_none :
    (c : Compile) (usable : List String) (l : List (ℕ × Builder))
    → AllCovered c usable none l
    → NoneEligible c usable l
unfolding covered
covered_none c usable [] h = tt
covered_none c usable ((id, s) ∷ ss) h = (ground (arith, h.0), covered_none c usable ss h.1)

best_node-none :
    (c : Compile) (usable : List String) (l : List (ℕ × Builder))
    → best_node c usable none l ≡ none
    → NoneEligible c usable l
best_node-none c usable l h =
    covered_none c usable l
      (subst (λ r. AllCovered c usable r l) h (best_node-Searched c usable none l tt).all_covered)

-- A compile gets a best one of the builders that have its object, if one of them may get it, and else
-- a best one of all builders: one that may get it, with its first usable environment, such that no
-- other that may get it has a higher score, or the same score and a last job that is longer ago.
pub choose-IsBest :
    (c : Compile) (usable : List String) (nodes all : List (ℕ × Builder)) (k : Choice)
    → choose c usable nodes all ≡ some k
    → IsBest c usable k nodes ⊎ (NoneEligible c usable nodes × IsBest c usable k all)
unfolding choose
choose-IsBest c usable nodes all k h = elim (Option-cases (best_node c usable none nodes)) [
  | inr (m, found) ↦ inl (best_node-IsBest c usable nodes k (found ∙ (rw (found, choose) at h)))
  | inl missing ↦ inr (
    best_node-none c usable nodes missing,
    best_node-IsBest c usable all k
        (sym (best_builder-eq-best_node c usable none all) ∙ (rw (missing, choose) at h)),
  )
]

pub choose-IsOneOf :
    (c : Compile) (usable : List String) (nodes all : List (ℕ × Builder)) (k : Choice)
    → choose c usable nodes all ≡ some k
    → IsOneOf k nodes ⊎ IsOneOf k all
choose-IsOneOf c usable nodes all k h = elim (choose-IsBest c usable nodes all k h) [
  | inl b ↦ inl b.one
  | inr (nothing, b) ↦ inr b.one
]

-- A compile is refused only when no builder may get it.
pub choose-none :
    (c : Compile) (usable : List String) (nodes all : List (ℕ × Builder))
    → choose c usable nodes all ≡ none
    → NoneEligible c usable nodes × NoneEligible c usable all
unfolding choose
choose-none c usable nodes all h = elim (Option-cases (best_node c usable none nodes)) [
  | inr (m, found) ↦ absurd (let e = rw (found, choose) at h in cc)
  | inl missing ↦ (
    best_node-none c usable nodes missing,
    best_node-none c usable all
        (sym (best_builder-eq-best_node c usable none all) ∙ (rw (missing, choose) at h)),
  )
]
