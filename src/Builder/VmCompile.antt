-- ===== src/Builder/VmCompile.antt =====
-- src/builder/VM_runtime/Compile.ts: the arguments that a builder's compiler is called with, from those
-- of the client. The source's loop moves over an array that it
-- changes; here it goes through the list once, and a mode says what the argument before asks of the
-- next one. The package path is a parameter.
pub mod Scans
pub mod Remains
mod Examples
use Prim.Native.String.{◌++◌ as ◌+++◌, slice, len}
use text.Mathlib.Text.{starts_with, find?}
use fisk.Base.{
  ◌-◌, String, ite, Bool, true, false, ◌||◌, Option, none, some, List, [], ◌∷◌, ◌++◌, if◌then◌else◌,
  String_discrete, Result, ok, err, ◌>>=◌, holds,
}
use fisk.OrderedMap.{is_some}

pub record PathPackage : Type 0 where
  pub basename : String → String
  pub extname : String → String
  pub join : String → String → String

pub data Error : Type 0 where
  bad_args more_than_one_source no_sourcefile unknown_language type_error : Error

-- What the next argument is: an argument of its own, or the operand of the one before.
pub data Mode : Type 0 where
  plain as_output dropped as_language kept : Mode

-- The cases of the switch, and those of its default.
pub data Kind : Type 0 where
  output_option drop_two drop_one language_option with_operand drop_default flag source : Kind

-- The variables of the constructor; no source is "".
pub record Scan : Type 0 where
  pub output : Option String
  pub output_file_name : Option String
  pub has_dash_o : Bool
  pub has_dash_x : Bool
  pub source_path : String

abbrev pub is_text : String → String → Bool
is_text s t = ite (String_discrete s t) true false

abbrev pub starts_one : List String → String → Bool
starts_one [] a = false
starts_one (p ∷ ps) a = starts_with a p || starts_one ps a

unfoldable pub kind : String → Kind
kind a =
    if is_text a "-o"
    then output_option
    else if holds String_discrete a
        ("-MF" ∷ "-MT" ∷ "-cxx-isystem" ∷ "-isysroot" ∷ "-isystem" ∷ "-iquote" ∷ "-I" ∷ "-F" ∷ [])
    then drop_two
    else if holds String_discrete a ("-MMD" ∷ "-MD" ∷ "-MM" ∷ "-M" ∷ [])
    then drop_one
    else if is_text a "-x"
    then language_option
    else if holds String_discrete a (
        "--param" ∷ "-G" ∷ "-T" ∷ "-V" ∷ "-Xanalyzer" ∷ "-Xassembler" ∷ "-Xclang" ∷ "-Xlinker"
        ∷ "-Xpreprocessor" ∷ "-arch" ∷ "-b" ∷ "-gcc-toolchain" ∷ "-imacros" ∷ "-imultilib"
        ∷ "-include" ∷ "-iprefix" ∷ "-ivfsoverlay" ∷ "-iwithprefix" ∷ "-iwithprefixbefore"
        ∷ "-target" ∷ "-framework" ∷ [])
    then with_operand
    else if starts_one
        ("-mlinker-version=" ∷ "-stdlib=" ∷ "-I" ∷ "-F" ∷ "-isystem" ∷ "-isysroot" ∷ "-cxx-isystem"
          ∷ "-iquote" ∷ "--sysroot=" ∷ "--gcc-toolchain=" ∷ [])
        a
    then drop_default
    else if starts_with a "-"
    then flag
    else source

-- The operand of -x for a gcc.
unfoldable pub output_language : String → String
output_language a =
    if is_text a "c"
    then "cpp-output"
    else if is_text a "c++"
    then "c++-cpp-output"
    else if is_text a "objective-c"
    then "objective-c-output"
    else if is_text a "objective-c++"
    then "objective-c++-cpp-output"
    else a

-- One argument: the mode of the next, the variables, and what is left of the argument.
pub record Turn : Type 0 where
  pub mode : Mode
  pub scan : Scan
  pub left : List String

abbrev pub turned : Mode → Scan → List String → Turn
turned m st xs = record { mode = m; scan = st; left = xs }

-- The variables after the loop, and what is left of the arguments.
abbrev pub Scanned : Type 0
Scanned = Result Error (Scan × List String)

abbrev pub prepended : List String → Scan × List String → Scanned
prepended left (st, args) = ok (st, left ++ args)

module _ (p : PathPackage) (is_clang : Bool) (dir : String) where
  unfoldable pub plain_arg : Kind → Scan → String → Result Error Turn
  plain_arg output_option st a = ok (turned as_output (record st { has_dash_o = true }) (a ∷ []))
  plain_arg drop_two st a = ok (turned dropped st [])
  plain_arg drop_one st a = ok (turned plain st [])
  plain_arg language_option st a =
      ok (turned as_language (record st { has_dash_x = true }) (a ∷ []))
  plain_arg with_operand st a = ok (turned kept st (a ∷ []))
  plain_arg drop_default st a = ok (turned plain st [])
  plain_arg flag st a = ok (turned plain st (a ∷ []))
  plain_arg source st a =
      if is_text st.source_path ""
      then ok (turned plain (record st { source_path = a }) (p.join dir "sourcefile" ∷ []))
      else err more_than_one_source

  unfoldable pub turn : Mode → Scan → String → Result Error Turn
  unfolding plain_arg kind output_language
  turn plain st a = plain_arg (kind a) st a
  turn as_output st a = ok (
      turned plain (record st { output = some a; output_file_name = some (p.basename a) })
        (p.basename a ∷ []))
  turn dropped st a = ok (turned plain st [])
  turn as_language st a = ok (turned plain st ((if is_clang then a else output_language a) ∷ []))
  turn kept st a = ok (turned plain st (a ∷ []))

  -- The loop. Without an operand, path.basename gets undefined and throws.
  unfoldable pub scan_args : Mode → Scan → List String → Result Error (Scan × List String)
  unfolding turn
  scan_args as_output st [] = err type_error
  scan_args plain st [] = ok (st, [])
  scan_args dropped st [] = ok (st, [])
  scan_args as_language st [] = ok (st, [])
  scan_args kept st [] = ok (st, [])
  scan_args mode st (a ∷ rest) =
      turn mode st a >>= λ t. scan_args t.mode t.scan rest >>= prepended t.left

-- path.extname(sourcePath)
unfoldable pub language_of : Bool → String → Option String
language_of is_clang ext =
    if holds String_discrete ext (".C" ∷ ".cc" ∷ ".cpp" ∷ ".CPP" ∷ ".c++" ∷ ".cp" ∷ ".cxx" ∷ [])
    then some (if is_clang then "c++" else "c++-cpp-output")
    else if is_text ext ".ii"
    then some "c++-cpp-output"
    else if holds String_discrete ext (".hh" ∷ ".hpp" ∷ ".H" ∷ [])
    then some "c++-header"
    else if is_text ext ".h"
    then some "c-header"
    else if is_text ext ".c"
    then some (if is_clang then "c" else "cpp-output")
    else if is_text ext ".i"
    then some "cpp-output"
    else if holds String_discrete ext (".m" ∷ ".mi" ∷ [])
    then some (if is_clang then "objective-c" else "objective-c-cpp-output")
    else if is_text ext ".s"
    then some "assembler"
    else if holds String_discrete ext (".sx" ∷ ".S" ∷ [])
    then some "assembler-with-cpp"
    else if holds String_discrete ext (".mm" ∷ ".M" ∷ ".mii" ∷ [])
    then some (if is_clang then "objective-c++" else "objective-c++-cpp-output")
    else none

-- What the compiler is called with.
pub record Prepared : Type 0 where
  pub compiler : String
  pub args : List String
  pub output : Option String
  pub output_file_name : Option String
  pub source_path : String

unfoldable pub with_language : PathPackage → Bool → Scan → List String → Result Error (List String)
unfolding language_of
with_language p is_clang st args =
    if st.has_dash_x then ok args else elim (language_of is_clang (p.extname st.source_path)) [
      | none ↦ err unknown_language
      | some l ↦ ok ("-x" ∷ l ∷ args)
    ]

abbrev pub flags : Bool → List String
flags true = "-Wno-stdlibcxx-not-found" ∷ []
flags false = "-fpreprocessed" ∷ "-fdirectives-only" ∷ []

unfoldable pub object_name : PathPackage → String → String
object_name p source_path =
    slice source_path 0 (len source_path - len (p.extname source_path)) +++ ".o"

unfoldable pub with_output : PathPackage → Scan → String → List String → Prepared
unfolding object_name
with_output p st compiler args =
    if st.has_dash_o
    then record {
      compiler = compiler;
      args = args;
      output = st.output;
      output_file_name = st.output_file_name;
      source_path = st.source_path;
    }
    else let name = object_name p st.source_path in
      record {
        compiler = compiler;
        args = args ++ "-o" ∷ name ∷ [];
        output = some name;
        output_file_name = some name;
        source_path = st.source_path;
      }

abbrev pub first_scan : Scan
first_scan = record {
  output = none;
  output_file_name = none;
  has_dash_o = false;
  has_dash_x = false;
  source_path = "";
}

-- The rest of the constructor, when the arguments were scanned.
unfoldable pub finish : PathPackage → Bool → String → Scan × List String → Result Error Prepared
unfolding with_language with_output
finish p is_clang compiler (st, args) =
    if is_text st.source_path ""
    then err no_sourcefile
    else with_language p is_clang st args >>= λ xs.
        ok (with_output p st compiler (xs ++ flags is_clang))

abbrev pub is_clang_name : String → Bool
is_clang_name compiler = is_some (find? compiler "clang")

-- The constructor, up to the call of the compiler.
unfoldable pub prepare : PathPackage → List String → String → String → Result Error Prepared
unfolding scan_args finish
prepare p [] argv0 dir = err bad_args
prepare p (compiler ∷ args) argv0 dir =
    let scanned = scan_args p (is_clang_name compiler) dir plain first_scan args in
    if is_text dir "" || is_text argv0 ""
    then err bad_args
    else scanned >>= finish p (is_clang_name compiler) compiler
