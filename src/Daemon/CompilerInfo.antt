-- ===== src/Daemon/CompilerInfo.antt =====
-- src/daemon/CompilerInfoCache.ts: createCompilerInfo and its helpers. A text is the list of its
-- characters' codes. What the probes answer is an argument, and `digest` is the hash in upper case.
-- Lines end with a line feed, white space is that of ASCII, and the number of a macro has no sign.
-- The field `input`, which nothing reads, is left out.
pub mod Versions
pub mod Fingerprint
mod Examples
use Prim.Native.Char.{code}
use fisk.Base.{
  ℕ, zero, suc, ◌+◌, ◌-◌, ◌*◌, String, Bool, true, false, ◌&&◌, ◌||◌, Option, none, some, List, [],
  ◌∷◌, ◌++◌, length, take, drop, is_empty, if◌then◌else◌, ◌==◌, leb,
}
use fisk.OrderedMap.{is_some}

abbrev pub Text : Type 0
Text = List ℕ

abbrev pub codes : String → Text
codes String.[] = []
codes (String.◌∷◌ c s) = code c ∷ codes s

pub data CompilerType : Type 0 where
  clang gcc unknown : CompilerType

pub record CompilerVersion : Type 0 where
  pub major : ℕ
  pub minor : ℕ
  pub patch : ℕ

pub record CompilerInfo : Type 0 where
  pub hash : String
  pub type : CompilerType
  pub version : CompilerVersion

pub record ProbeOutputs : Type 0 where
  pub dumpmachine : Text
  pub dumpversion : Text
  pub dumpfullversion : Option Text
  pub builtins_c : Text
  pub builtins_cxx : Text

abbrev pub is_digit : ℕ → Bool
is_digit c = leb 48 c && leb c 57

-- `\d+` takes all the digits that it can, and what follows them.
unfoldable pub digits : Text → Text × Text
digits [] = ([], [])
digits (c ∷ cs) = let r = digits cs in if is_digit c then (c ∷ r.0, r.1) else ([], c ∷ cs)

-- parseInt(text, 10) of digits, 0 where there are none.
unfoldable pub number_from : ℕ → Text → ℕ
number_from n [] = n
number_from n (c ∷ cs) = number_from (n * 10 + (c - 48)) cs

unfoldable pub after_dot : Text → Option Text
after_dot [] = none
after_dot (c ∷ cs) = if c == 46 then some cs else none

-- The groups of `^(\d+)`, with so many times `\.(\d+)` behind it.
unfoldable pub dotted : ℕ → Text → Option (List ℕ)
unfolding digits number_from after_dot
dotted zero text =
    let r = digits text in if is_empty r.0 then none else some (number_from 0 r.0 ∷ [])
dotted (suc n) text =
    let r = digits text in
    elim (if is_empty r.0 then none else after_dot r.1) [
      | none ↦ none
      | some rest ↦ elim (dotted n rest) [ none ↦ none | some ns ↦ some (number_from 0 r.0 ∷ ns) ]
    ]

unfoldable pub version_of : List ℕ → CompilerVersion
version_of [] = record { major = 0; minor = 0; patch = 0 }
version_of (a ∷ []) = record { major = a; minor = 0; patch = 0 }
version_of (a ∷ b ∷ []) = record { major = a; minor = b; patch = 0 }
version_of (a ∷ b ∷ c ∷ ns) = record { major = a; minor = b; patch = c }

unfoldable pub parse_version : Text → CompilerVersion
unfolding dotted version_of
parse_version text = elim (dotted 2 text) [
  | some ns ↦ version_of ns
  | none ↦ elim (dotted 1 text) [
    | some ns ↦ version_of ns
    | none ↦ elim (dotted 0 text) [ some ns ↦ version_of ns | none ↦ version_of [] ]
  ]
]

-- What follows a prefix, if the text has it.
unfoldable pub strip_prefix : Text → Text → Option Text
strip_prefix [] text = some text
strip_prefix (c ∷ cs) [] = none
strip_prefix (c ∷ cs) (d ∷ ds) = let r = strip_prefix cs ds in if c == d then r else none

unfoldable pub first_line : Text → Text
first_line [] = []
first_line (c ∷ cs) = if c == 10 then [] else c ∷ first_line cs

-- What follows the prefix on the first line that begins with it. The number says whether a line
-- begins here.
unfoldable pub find_line : Bool → Text → Text → Option Text
unfolding strip_prefix first_line
find_line starts prefix [] = none
find_line starts prefix (c ∷ cs) =
    let later = find_line (c == 10) prefix cs in
    elim (if starts then strip_prefix prefix (c ∷ cs) else none) [
      | none ↦ later
      | some rest ↦ some (first_line rest)
    ]

unfoldable pub detect_type_from_macros : Text → CompilerType
unfolding find_line
detect_type_from_macros macros =
    if is_some (find_line true (codes "#define __clang__ ") macros)
    then clang
    else if is_some (find_line true (codes "#define __GNUC__ ") macros)
    then gcc
    else unknown

abbrev pub is_space : ℕ → Bool
is_space c = c == 32 || (leb 9 c && leb c 13)

unfoldable pub trim_start : Text → Text
trim_start [] = []
trim_start (c ∷ cs) = let r = trim_start cs in if is_space c then r else c ∷ cs

unfoldable pub trim_end : Text → Text
trim_end [] = []
trim_end (c ∷ cs) = let r = trim_end cs in if is_empty r && is_space c then [] else c ∷ r

unfoldable pub trim : Text → Text
unfolding trim_start trim_end
trim text = trim_end (trim_start text)

unfoldable pub macro_value : Text → String → Option Text
unfolding find_line trim
macro_value macros name = elim (find_line true (codes "#define " ++ codes name ++ 32 ∷ []) macros) [
  | none ↦ none
  | some rest ↦ some (trim rest)
]

abbrev pub is_quote : Text → Bool
is_quote [] = false
is_quote (c ∷ cs) = c == 34

unfoldable pub strip_quotes : Text → Text
strip_quotes s =
    if leb 2 (length s) && is_quote s && is_quote (drop (length s - 1) s)
    then take (length s - 2) (drop 1 s)
    else s

-- parseInt(text, 10) || 0
abbrev pub parse_int : Option Text → ℕ
unfolding digits number_from
parse_int none = 0
parse_int (some text) = number_from 0 (digits text).0

-- The version of three macros, if the first of them is there.
unfoldable pub version_of_macros : Text → String → String → String → Option CompilerVersion
unfolding macro_value
version_of_macros macros major minor patch = elim (macro_value macros major) [
  | none ↦ none
  | some text ↦ some (record {
    major = parse_int (some text);
    minor = parse_int (macro_value macros minor);
    patch = parse_int (macro_value macros patch);
  })
]

abbrev pub zero_version : CompilerVersion
zero_version = record { major = 0; minor = 0; patch = 0 }

abbrev pub or_zero : Option CompilerVersion → CompilerVersion
or_zero none = zero_version
or_zero (some v) = v

-- The version in __clang_version__, if it is there and not empty.
unfoldable pub clang_version : Text → Option CompilerVersion
unfolding macro_value parse_version strip_quotes
clang_version macros = elim (macro_value macros "__clang_version__") [
  | none ↦ none
  | some v ↦ if is_empty v then none else some (parse_version (strip_quotes v))
]

unfoldable pub version_from_macros : Text → CompilerType → CompilerVersion
unfolding clang_version version_of_macros
version_from_macros macros unknown = zero_version
version_from_macros macros gcc =
    or_zero (version_of_macros macros "__GNUC__" "__GNUC_MINOR__" "__GNUC_PATCHLEVEL__")
version_from_macros macros clang = elim (clang_version macros) [
  | some v ↦ v
  | none ↦
      or_zero (version_of_macros macros "__clang_major__" "__clang_minor__" "__clang_patchlevel__")
]

abbrev pub or_empty : Option Text → Text
or_empty none = []
or_empty (some t) = t

-- What the probes answer, none for one that failed: only dumpfullversion may fail.
unfoldable pub gather_probes :
    Option Text → Option Text → Option Text → Option Text → Option Text → Option ProbeOutputs
unfolding trim
gather_probes (some machine) (some version) full (some c) (some cxx) = some (record {
  dumpmachine = trim machine;
  dumpversion = trim version;
  dumpfullversion = elim full [ none ↦ none | some t ↦ some (trim t) ];
  builtins_c = c;
  builtins_cxx = cxx;
})
gather_probes machine version full c cxx = none

-- parts.join("\0")
unfoldable pub join_nul : List Text → Text
join_nul [] = []
join_nul (t ∷ []) = t
join_nul (t ∷ u ∷ ts) = t ++ 0 ∷ join_nul (u ∷ ts)

unfoldable pub canonical_fingerprint : ProbeOutputs → Text
unfolding join_nul
canonical_fingerprint p = join_nul (
    codes "fisk-compiler-fingerprint-v1"
    ∷ codes "dumpmachine"
    ∷ p.dumpmachine
    ∷ codes "dumpversion"
    ∷ p.dumpversion
    ∷ codes "dumpfullversion"
    ∷ or_empty p.dumpfullversion
    ∷ codes "builtins-c"
    ∷ p.builtins_c
    ∷ codes "builtins-cxx"
    ∷ p.builtins_cxx
    ∷ [])

unfoldable pub create_compiler_info : (Text → String) → ProbeOutputs → CompilerInfo
unfolding detect_type_from_macros version_from_macros parse_version canonical_fingerprint
create_compiler_info digest probes =
    let type = detect_type_from_macros probes.builtins_c in
    let from_macros = version_from_macros probes.builtins_c type in
    record {
      hash = digest (canonical_fingerprint probes);
      type = type;
      version =
          if from_macros.major == 0
          then parse_version
              (elim probes.dumpfullversion [ none ↦ probes.dumpversion | some t ↦ t ])
          else from_macros;
    }
