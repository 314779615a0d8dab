-- ===== src/Scheduler/Choice/Search.antt =====
-- The two searches of the "compile" handler: what each of them has seen.
use fisk.Base.{
  ℕ, String, ◌≡◌, refl, sym, ◌∙◌, ◌⊎◌, inl, inr, true, false, Option, none, some, List, ◌∷◌, arith,
  Bool-cases, Option-cases, [],
}
use fisk.Scheduler.Builder.{Builder}
use fisk.Scheduler.Choice.{
  Compile, Choice, filter_builder, is_better, chosen, candidate_env, consider_node, best_node,
  best_builder,
}
use fisk.Scheduler.Choice.Order.{
  AllCovered, IsHonest, Keeps, Keeps-self, Keeps-trans, consider_builder-eq-consider_node, covered,
  covered_later, eligible, is_better_irrefl, replaced_not_better,
}

-- One builder of the first search.
pub record Considered (c : Compile) (usable : List String) (r r' : Option Choice) (s : ℕ × Builder)
    : Type 0 where
  pub keeps : Keeps r r'
  pub honest : IsHonest c usable r'
  pub covers : covered c usable r' s ≡ true

pub eligible_out :
    (c : Compile) (usable : List String) (s : ℕ × Builder)
    → eligible c usable s ≡ false
    → (r : Option Choice) → covered c usable r s ≡ true
unfolding covered
eligible_out c usable (id, s) h r = ground (arith, h)

pub replaced :
    (c : Compile) (usable : List String) (r : Option Choice) (id : ℕ) (s : Builder) (e : String)
    → IsHonest c usable r
    → filter_builder c s ≡ true
    → candidate_env usable s ≡ some e
    → is_better s r ≡ true
    → Considered c usable r (some (chosen id s e)) (id, s)
unfolding covered
replaced c usable none id s e h fits found better = record {
  keeps = tt;
  honest = (refl, fits, found);
  covers = ground (arith, is_better_irrefl (chosen id s e) refl);
}
replaced c usable (some b) id s e h fits found better = record {
  keeps = replaced_not_better s id e b h.0 better;
  honest = (refl, fits, found);
  covers = ground (arith, is_better_irrefl (chosen id s e) refl);
}

pub kept :
    (c : Compile) (usable : List String) (r : Option Choice) (id : ℕ) (s : Builder)
    → IsHonest c usable r
    → is_better s r ≡ false
    → Considered c usable r r (id, s)
unfolding covered
kept c usable none id s h worse = absurd (unfold is_better in cc)
kept c usable (some b) id s h worse = record {
  keeps = is_better_irrefl b h.0;
  honest = h;
  covers = ground (arith, worse);
}

pub consider_node-Considered :
    (c : Compile) (usable : List String) (r : Option Choice) (s : ℕ × Builder)
    → IsHonest c usable r
    → Considered c usable r (consider_node c usable r s) s
unfolding consider_node
consider_node-Considered c usable r (id, s) h = elim (Bool-cases (filter_builder c s)) [
  | inr out ↦
      rw (out, consider_node)
        (record {
          keeps = Keeps-self c usable r h;
          honest = h;
          covers = eligible_out c usable (id, s) (unfold eligible in ground (arith, out)) r;
        })
  | inl fits ↦ elim (Option-cases (candidate_env usable s)) [
    | inl missing ↦
        rw (fits, missing, consider_node)
          (record {
            keeps = Keeps-self c usable r h;
            honest = h;
            covers = eligible_out c usable (id, s) (unfold eligible in ground (arith, missing)) r;
          })
    | inr (e, found) ↦ elim (Bool-cases (is_better s r)) [
      | inl better ↦
          rw (fits, found, better, consider_node) (replaced c usable r id s e h fits found better)
      | inr worse ↦ rw (fits, found, worse, consider_node) (kept c usable r id s h worse)
    ]
  ]
]

pub AllCovered-later :
    (c : Compile) (usable : List String) (r r' : Option Choice) (l : List (ℕ × Builder))
    → IsHonest c usable r
    → Keeps r r'
    → AllCovered c usable r l
    → AllCovered c usable r' l
AllCovered-later c usable r r' [] h k p = tt
AllCovered-later c usable r r' (s ∷ ss) h k p =
    (covered_later c usable r r' s h k p.0, AllCovered-later c usable r r' ss h k p.1)

-- The first search over all of a list.
pub record Searched (c : Compile) (usable : List String) (r r' : Option Choice)
    (l : List (ℕ × Builder)) : Type 0 where
  pub keeps : Keeps r r'
  pub honest : IsHonest c usable r'
  pub all_covered : AllCovered c usable r' l

pub best_node-Searched :
    (c : Compile) (usable : List String) (r : Option Choice) (l : List (ℕ × Builder))
    → IsHonest c usable r
    → Searched c usable r (best_node c usable r l) l
unfolding best_node
best_node-Searched c usable r [] h = record {
  keeps = Keeps-self c usable r h;
  honest = h;
  all_covered = tt;
}
best_node-Searched c usable r (s ∷ ss) h =
    let r1 = consider_node c usable r s in
    let one = consider_node-Considered c usable r s h in
    let rest = best_node-Searched c usable r1 ss one.honest in
    let r2 = best_node c usable r1 ss in
    record {
      keeps = Keeps-trans c usable r r1 r2 one.honest one.keeps rest.keeps;
      honest = rest.honest;
      all_covered =
          (covered_later c usable r1 r2 s one.honest rest.keeps one.covers, rest.all_covered);
    }

-- Where the choice comes from.
abbrev pub IsOneOf : Choice → List (ℕ × Builder) → Type 0
IsOneOf k [] = ⊥
IsOneOf k ((id, s) ∷ ss) = ((k.id ≡ id) × (k.builder ≡ s)) ⊎ IsOneOf k ss

abbrev pub FromOr : Option Choice → List (ℕ × Builder) → Option Choice → Type 0
FromOr r l none = Unit {0}
FromOr r l (some k) = (r ≡ some k) ⊎ IsOneOf k l

pub consider_node_from :
    (c : Compile) (usable : List String) (r : Option Choice) (s : ℕ × Builder)
    → (consider_node c usable r s ≡ r)
      ⊎ ((e : String) × (consider_node c usable r s ≡ some (chosen s.0 s.1 e)))
unfolding consider_node
consider_node_from c usable r (id, s) = elim (Bool-cases (filter_builder c s)) [
  | inr out ↦ rw (out, consider_node) (inl refl)
  | inl fits ↦ elim (Option-cases (candidate_env usable s)) [
    | inl missing ↦ rw (fits, missing, consider_node) (inl refl)
    | inr (e, found) ↦ elim (Bool-cases (is_better s r)) [
      | inl better ↦ rw (fits, found, better, consider_node) (inr (e, refl))
      | inr worse ↦ rw (fits, found, worse, consider_node) (inl refl)
    ]
  ]
]

pub best_node_from :
    (c : Compile) (usable : List String) (r : Option Choice) (l : List (ℕ × Builder)) (k : Choice)
    → best_node c usable r l ≡ some k
    → (r ≡ some k) ⊎ IsOneOf k l
unfolding best_node
best_node_from c usable r [] k h = inl h
best_node_from c usable r ((id, s) ∷ ss) k h =
    elim (best_node_from c usable (consider_node c usable r (id, s)) ss k h) [
      | inr later ↦ inr (inr later)
      | inl now ↦ elim (consider_node_from c usable r (id, s)) [
        | inl same ↦ inl (sym same ∙ now)
        | inr (e, new) ↦ inr (inl (cc, cc))
      ]
    ]

pub best_builder-eq-best_node :
    (c : Compile) (usable : List String) (r : Option Choice) (l : List (ℕ × Builder))
    → best_builder c usable r l ≡ best_node c usable r l
unfolding best_builder best_node
best_builder-eq-best_node c usable r [] = refl
best_builder-eq-best_node c usable r (s ∷ ss) =
    rw (consider_builder-eq-consider_node c usable r s)
      (best_builder-eq-best_node c usable (consider_node c usable r s) ss)
