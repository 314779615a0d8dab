-- ===== src/Daemon/CompilerInfo/Versions.antt =====
-- The versions that compilers print.
use fisk.Base.{
  ℕ, suc, ◌≡◌, refl, ap, ◌∙◌, Bool, true, false, Option, none, some, List, [], ◌∷◌, ◌++◌, is_empty,
  if◌then◌else◌,
}
use fisk.Daemon.CompilerInfo.{
  Text, is_digit, digits, number_from, after_dot, dotted, version_of, parse_version,
}

abbrev pub IsDigits : Text → Type 0
IsDigits [] = Unit {0}
IsDigits (c ∷ cs) = (is_digit c ≡ true) × IsDigits cs

abbrev pub starts_with_digit : Text → Bool
starts_with_digit [] = false
starts_with_digit (c ∷ cs) = is_digit c

-- Digits are taken up to the first character that is none.
digits-append :
    (ds rest : Text)
    → IsDigits ds
    → starts_with_digit rest ≡ false
    → digits (ds ++ rest) ≡ (ds, rest)
unfolding digits
digits-append [] [] h stop = refl
digits-append [] (c ∷ cs) h stop = rw stop refl
digits-append (d ∷ ds) rest h stop = rw (h.0, digits-append ds rest h.1 stop) refl

-- A number and a dot in front.
dotted-suc :
    (n : ℕ) (ds rest : Text) (ns : List ℕ)
    → IsDigits ds
    → is_empty ds ≡ false
    → dotted n rest ≡ some ns
    → dotted (suc n) (ds ++ 46 ∷ rest) ≡ some (number_from 0 ds ∷ ns)
unfolding dotted after_dot
dotted-suc n ds rest ns h e p =
    ap
      (λ (r : Text × Text).
        elim (if is_empty r.0 then none else after_dot r.1) as (λ x. Option (List ℕ)) [
          | none ↦ none
          | some t ↦ elim (dotted n t) as (λ x. Option (List ℕ)) [
            | none ↦ none
            | some ms ↦ some (number_from 0 r.0 ∷ ms)
          ]
        ])
      (digits-append ds (46 ∷ rest) h refl)
    ∙ rw (e, p) refl

dotted-zero :
    (ds rest : Text)
    → IsDigits ds
    → is_empty ds ≡ false
    → starts_with_digit rest ≡ false
    → dotted 0 (ds ++ rest) ≡ some (number_from 0 ds ∷ [])
unfolding dotted
dotted-zero ds rest h e stop = rw (digits-append ds rest h stop, e) refl

-- Of three numbers with dots between them, whatever follows the last one that is no digit, the version
-- has each as its decimal value.
pub parse_version_lem :
    (a b c rest : Text)
    → IsDigits a
    → is_empty a ≡ false
    → IsDigits b
    → is_empty b ≡ false
    → IsDigits c
    → is_empty c ≡ false
    → starts_with_digit rest ≡ false
    → parse_version (a ++ 46 ∷ (b ++ 46 ∷ (c ++ rest)))
      ≡ record { major = number_from 0 a; minor = number_from 0 b; patch = number_from 0 c }
unfolding parse_version version_of
parse_version_lem a b c rest ha ea hb eb hc ec stop =
    let last = dotted-zero c rest hc ec stop in
    let two = dotted-suc 0 b (c ++ rest) (number_from 0 c ∷ []) hb eb last in
    rw
      (
        dotted-suc 1 a (b ++ 46 ∷ (c ++ rest)) (number_from 0 b ∷ number_from 0 c ∷ []) ha ea two,
        parse_version,
      )
      refl
