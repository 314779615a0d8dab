-- ===== src/Builder/VmCompile/Scans.antt =====
-- The loop over the arguments in src/builder/VM_runtime/Compile.ts, and what a compiler reads in its
-- result: which arguments are options, their operands and sources.
use fisk.Base.{
  Bool, if_pos, ℕ, ◌+◌, String, ◌≡◌, refl, sym, ap, subst, ◌∙◌, ◌≢◌, Bool, true, false, Option,
  none, some, List, [], ◌∷◌, ◌++◌, arith, if◌then◌else◌, String_discrete, ok, err, ◌>>=◌, holds,
}
use fisk.Builder.VmCompile.{
  PathPackage, Mode, plain, as_output, dropped, as_language, kept, Kind, output_option, drop_two,
  drop_one, language_option, with_operand, drop_default, flag, source, Scan, is_text, kind,
  output_language, plain_arg, turn, scan_args, Scanned, prepended, first_scan,
}

-- The mode after an argument that stands for itself; an argument that would be dropped has none.
abbrev pub stays : String → String → Kind → Option Mode
stays place a output_option = some kept
stays place a language_option = some kept
stays place a with_operand = some kept
stays place a flag = some plain
stays place a source = if is_text a place then some plain else none
stays place a drop_two = none
stays place a drop_one = none
stays place a drop_default = none

abbrev pub sources_of : Kind → ℕ
sources_of source = 1
sources_of k = 0

-- Reads arguments as a compiler does, an option with its operand: how many sources there are, or none,
-- if an option is there that is dropped, or a source at another place.
unfoldable pub sources : String → Mode → List String → Option ℕ
unfolding kind
sources place m [] = some 0
sources place plain (a ∷ rest) = elim (stays place a (kind a)) [
  | none ↦ none
  | some m ↦ elim (sources place m rest) [ none ↦ none | some n ↦ some (sources_of (kind a) + n) ]
]
sources place m (a ∷ rest) = sources place plain rest

-- Whether the scan has a source.
abbrev pub has_source : Scan → ℕ
has_source st = if is_text st.source_path "" then 0 else 1

-- The mode in which the rest of the result is read.
abbrev pub after : Mode → Mode
after plain = plain
after dropped = plain
after m = kept

abbrev pub scanned : Scan → List String → Scanned
scanned st args = ok (st, args)

abbrev scan_of : Scanned → Scan
scan_of (ok r) = r.0
scan_of (err e) = first_scan

abbrev args_of : Scanned → List String
args_of (ok r) = r.1
args_of (err e) = []

-- A step of the loop that succeeds comes before a rest that does.
record Rest (r : Scanned) (l : List String) (st : Scan) (out : List String) : Type 0 where
  rest : List String
  went : r ≡ scanned st rest
  joined : out ≡ l ++ rest

goes_on :
    (r : Scanned) (l : List String) (st : Scan) (out : List String)
    → (r >>= prepended l) ≡ scanned st out
    → Rest r l st out
goes_on (err e) l st out h = cc
goes_on (ok (s, o)) l st out h = record {
  rest = o;
  went = ap (λ x. scanned x o) (ap scan_of h);
  joined = sym (ap args_of h);
}

-- The result is read without a dropped option, and has the sources that the scan found.
pub record Read (place : String) (m : Mode) (st st' : Scan) (out : List String) : Type 0 where
  pub count : ℕ
  pub reads : sources place m out ≡ some count
  pub found : has_source st + count ≡ has_source st'

-- An argument that stays, before a rest that was read.
sources_kept :
    (place a : String) (x : Kind) (m : Mode) (rest out : List String) (n : ℕ)
    → kind a ≡ x
    → stays place a x ≡ some m
    → sources place m rest ≡ some n
    → out ≡ a ∷ rest
    → sources place plain out ≡ some (sources_of x + n)
unfolding sources
sources_kept place a x m rest out n e h g o =
    let s : stays place a (kind a) ≡ some m = ap (stays place a) e ∙ h in
    rw (o, sources, s, g) (ap (λ y. some (sources_of y + n)) e)

sources_nil : (place : String) (m : Mode) → sources place m [] ≡ some 0
unfolding sources
sources_nil place plain = refl
sources_nil place as_output = refl
sources_nil place dropped = refl
sources_nil place as_language = refl
sources_nil place kept = refl

module _ (p : PathPackage) (is_clang : Bool) (dir : String)
    (k : kind (p.join dir "sourcefile") ≡ source) where
  abbrev place : String
  place = p.join dir "sourcefile"

  stays-place : stays place place source ≡ some plain
  stays-place =
      ap (λ (b : Bool). if b then some plain else none)
        (if_pos (String_discrete place place) refl true false)

  abbrev pub Goes : List String → Type 0
  Goes args =
      (mode : Mode) (st st' : Scan) (out : List String)
      → scan_args p is_clang dir mode st args ≡ scanned st' out
      → Read place (after mode) st st' out

  -- An argument that stays without being a source, and the rest of the arguments.
  kept-Read :
      (x : Kind) (mode : Mode) (a : String) (rest : List String) (st1 st st' : Scan)
      (out : List String)
      → kind a ≡ x
      → stays place a x ≡ some (after mode)
      → sources_of x ≡ 0
      → has_source st1 ≡ has_source st
      → Goes rest
      → (scan_args p is_clang dir mode st1 rest >>= prepended (a ∷ [])) ≡ scanned st' out
      → Read place plain st st' out
  kept-Read x mode a rest st1 st st' out e s no_source same ih h =
      let r = goes_on (scan_args p is_clang dir mode st1 rest) (a ∷ []) st' out h in
      let w = ih mode st1 st' r.rest r.went in
      record {
        count = sources_of x + w.count;
        reads = sources_kept place a x (after mode) r.rest out w.count e s w.reads r.joined;
        found = omega (arith, w.found, same, no_source);
      }

  -- An argument that is dropped.
  dropped-Read :
      (mode : Mode) (rest : List String) (st st' : Scan) (out : List String)
      → Goes rest
      → (scan_args p is_clang dir mode st rest >>= prepended []) ≡ scanned st' out
      → Read place (after mode) st st' out
  dropped-Read mode rest st st' out ih h =
      let r = goes_on (scan_args p is_clang dir mode st rest) [] st' out h in
      let w = ih mode st st' r.rest r.went in
      record {
        count = w.count;
        reads = subst (λ o. sources place (after mode) o ≡ some w.count) (sym r.joined) w.reads;
        found = w.found;
      }

  plain-Read :
      (x : Kind) (a : String) (rest : List String) (st st' : Scan) (out : List String)
      → kind a ≡ x
      → a ≢ ""
      → Goes rest
      → (plain_arg p is_clang dir x st a >>= λ t.
          scan_args p is_clang dir t.mode t.scan rest >>= prepended t.left)
        ≡ scanned st' out
      → Read place plain st st' out
  unfolding plain_arg
  plain-Read output_option a rest st st' out e n ih h =
      kept-Read output_option as_output a rest (record st { has_dash_o = true }) st st' out e refl
        refl refl ih h
  plain-Read drop_two a rest st st' out e n ih h = dropped-Read dropped rest st st' out ih h
  plain-Read drop_one a rest st st' out e n ih h = dropped-Read plain rest st st' out ih h
  plain-Read drop_default a rest st st' out e n ih h = dropped-Read plain rest st st' out ih h
  plain-Read language_option a rest st st' out e n ih h =
      kept-Read language_option as_language a rest (record st { has_dash_x = true }) st st' out e
        refl refl refl ih h
  plain-Read with_operand a rest st st' out e n ih h =
      kept-Read with_operand kept a rest st st st' out e refl refl refl ih h
  plain-Read flag a rest st st' out e n ih h =
      kept-Read flag plain a rest st st st' out e refl refl refl ih h
  plain-Read source a rest st st' out e n ih h = elim (String_discrete st.source_path "") [
    | no first ↦ absurd (
        let f : is_text st.source_path "" ≡ false = ground (arith, first) in
        let g = rw (f) at h in cc)
    | yes first ↦
        let f : is_text st.source_path "" ≡ true = ground (arith, first) in
        let st1 = record st { source_path = a } in
        let r =
          goes_on (scan_args p is_clang dir plain st1 rest) (p.join dir "sourcefile" ∷ []) st' out
            (rw (f) at h) in
        let w = ih plain st1 st' r.rest r.went in
        record {
          count = 1 + w.count;
          reads =
              sources_kept place place source plain r.rest out w.count k stays-place w.reads
                r.joined;
          found = ground (arith, w.found, first, n);
        }
  ]

  ended-Read :
      (m : Mode) (st st' : Scan) (out : List String)
      → scanned st [] ≡ scanned st' out
      → Read place m st st' out
  unfolding sources
  ended-Read m st st' out h = record {
    count = 0;
    reads = subst (λ xs. sources place m xs ≡ some 0) (ap args_of h) (sources_nil place m);
    found = omega (arith, ap (λ x. has_source (scan_of x)) h);
  }

  -- The operand of an option, and the rest of the arguments.
  operand-Read :
      (st1 st st' : Scan) (x : String) (rest out : List String)
      → has_source st1 ≡ has_source st
      → Goes rest
      → (scan_args p is_clang dir plain st1 rest >>= prepended (x ∷ [])) ≡ scanned st' out
      → Read place kept st st' out
  unfolding sources
  operand-Read st1 st st' x rest out same ih h =
      let r = goes_on (scan_args p is_clang dir plain st1 rest) (x ∷ []) st' out h in
      let w = ih plain st1 st' r.rest r.went in
      record {
        count = w.count;
        reads = subst (λ o. sources place kept o ≡ some w.count) (sym r.joined) w.reads;
        found = omega (arith, w.found, same);
      }

  pub scan_args-Read : (args : List String) → holds String_discrete "" args ≡ false → Goes args
  unfolding scan_args turn
  scan_args-Read [] full as_output st st' out h = cc
  scan_args-Read [] full plain st st' out h = ended-Read plain st st' out h
  scan_args-Read [] full dropped st st' out h = ended-Read plain st st' out h
  scan_args-Read [] full as_language st st' out h = ended-Read kept st st' out h
  scan_args-Read [] full kept st st' out h = ended-Read kept st st' out h
  scan_args-Read (a ∷ rest) full plain st st' out h =
      plain-Read (kind a) a rest st st' out refl (λ e. ground (arith, e, full))
        (scan_args-Read rest (ground (arith, full))) h
  scan_args-Read (a ∷ rest) full dropped st st' out h =
      dropped-Read plain rest st st' out (scan_args-Read rest (ground (arith, full))) h
  scan_args-Read (a ∷ rest) full as_output st st' out h =
      operand-Read (record st { output = some a; output_file_name = some (p.basename a) }) st st'
        (p.basename a) rest out refl (scan_args-Read rest (ground (arith, full))) h
  scan_args-Read (a ∷ rest) full as_language st st' out h =
      operand-Read st st st' (if is_clang then a else output_language a) rest out refl
        (scan_args-Read rest (ground (arith, full))) h
  scan_args-Read (a ∷ rest) full kept st st' out h =
      operand-Read st st st' a rest out refl (scan_args-Read rest (ground (arith, full))) h
