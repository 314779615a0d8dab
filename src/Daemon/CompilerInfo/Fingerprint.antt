-- ===== src/Daemon/CompilerInfo/Fingerprint.antt =====
-- When two compilers have the same fingerprint.
use fisk.Base.{◌≡◌, ◌≢◌, refl, sym, ap, ◌∙◌, [], ◌∷◌, ◌++◌}
use mathlib.Core.List.{head-eq_of_cons-eq, tail-eq_of_cons-eq}
use fisk.Daemon.CompilerInfo.{Text, codes, ProbeOutputs, or_empty, join_nul, canonical_fingerprint}

-- No character of the text is NUL.
abbrev pub IsNulFree : Text → Type 0
IsNulFree [] = Unit {0}
IsNulFree (c ∷ cs) = (c ≢ 0) × IsNulFree cs

pub record NulFree (p : ProbeOutputs) : Type 0 where
  pub dumpmachine : IsNulFree p.dumpmachine
  pub dumpversion : IsNulFree p.dumpversion
  pub dumpfullversion : IsNulFree (or_empty p.dumpfullversion)
  pub builtins_c : IsNulFree p.builtins_c

-- The answers are the same, where a missing one counts as an empty one.
pub record SameAnswers (p q : ProbeOutputs) : Type 0 where
  pub dumpmachine : p.dumpmachine ≡ q.dumpmachine
  pub dumpversion : p.dumpversion ≡ q.dumpversion
  pub dumpfullversion : or_empty p.dumpfullversion ≡ or_empty q.dumpfullversion
  pub builtins_c : p.builtins_c ≡ q.builtins_c
  pub builtins_cxx : p.builtins_cxx ≡ q.builtins_cxx

-- Texts that end at their first NUL are the same, and so is what follows it.
cut_at_nul :
    (xs ys us vs : Text)
    → IsNulFree xs
    → IsNulFree ys
    → xs ++ 0 ∷ us ≡ ys ++ 0 ∷ vs
    → (xs ≡ ys) × (us ≡ vs)
cut_at_nul [] [] us vs f g e = (refl, tail-eq_of_cons-eq e)
cut_at_nul [] (y ∷ ys) us vs f g e = absurd (g.0 (sym (head-eq_of_cons-eq e)))
cut_at_nul (x ∷ xs) [] us vs f g e = absurd (f.0 (head-eq_of_cons-eq e))
cut_at_nul (x ∷ xs) (y ∷ ys) us vs f g e =
    let r = cut_at_nul xs ys us vs f.1 g.1 (tail-eq_of_cons-eq e) in
    (ap (λ z. z ∷ xs) (head-eq_of_cons-eq e) ∙ ap (◌∷◌ y) r.0, r.1)

-- A label and the NUL behind it.
cut_label : (label us vs : Text) → label ++ 0 ∷ us ≡ label ++ 0 ∷ vs → us ≡ vs
cut_label [] us vs e = tail-eq_of_cons-eq e
cut_label (x ∷ xs) us vs e = cut_label xs us vs (tail-eq_of_cons-eq e)

-- When the answers of the probes that stand before the last one have no NUL, the fingerprints of two
-- compilers are the same only if all their answers are, where a missing dumpfullversion counts as an
-- empty one: no other two answers are confused.
pub same_fingerprint :
    (p q : ProbeOutputs)
    → NulFree p
    → NulFree q
    → canonical_fingerprint p ≡ canonical_fingerprint q
    → SameAnswers p q
unfolding canonical_fingerprint join_nul
same_fingerprint p q f g e =
    let machine = cut_at_nul p.dumpmachine q.dumpmachine _ _ f.dumpmachine g.dumpmachine (
      cut_label (codes "dumpmachine") _ _
        (cut_label (codes "fisk-compiler-fingerprint-v1") _ _ e)) in
    let version =
      cut_at_nul p.dumpversion q.dumpversion _ _ f.dumpversion g.dumpversion
        (cut_label (codes "dumpversion") _ _ machine.1) in
    let full =
      cut_at_nul (or_empty p.dumpfullversion) (or_empty q.dumpfullversion) _ _ f.dumpfullversion
        g.dumpfullversion (cut_label (codes "dumpfullversion") _ _ version.1) in
    let c =
      cut_at_nul p.builtins_c q.builtins_c _ _ f.builtins_c g.builtins_c
        (cut_label (codes "builtins-c") _ _ full.1) in
    record {
      dumpmachine = machine.0;
      dumpversion = version.0;
      dumpfullversion = full.0;
      builtins_c = c.0;
      builtins_cxx = cut_label (codes "builtins-cxx") _ _ c.1;
    }
