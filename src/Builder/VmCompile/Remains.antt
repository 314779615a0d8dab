-- ===== src/Builder/VmCompile/Remains.antt =====
-- What the compiler of a builder is called with, src/builder/VM_runtime/Compile.ts: a source, a
-- language and an output, and none of the options that name files of the client's machine.
use fisk.Base.{[], if◌then◌else◌, String, ◌≡◌, Bool, false, some, List, ◌∷◌, ◌++◌, Result, ok, err}
use fisk.Builder.VmCompile.{
  PathPackage, language_of, object_name, Error, plain, Scan, is_text, scan_args, Prepared, flags,
  first_scan, is_clang_name,
}
use fisk.Builder.VmCompile.Scans.{sources, scanned}

-- What stands in front of the arguments that are left: nothing when -x is among them, and otherwise -x
-- with the language of the source.
abbrev pub IsLanguage : PathPackage → Bool → Scan → List String → Type 0
IsLanguage p clang scan front =
    if scan.has_dash_x
    then front ≡ []
    else (l : String) × (language_of clang (p.extname scan.source_path) ≡ some l)
      × (front ≡ "-x" ∷ l ∷ [])

-- What stands behind them and the flags: the output, when the client named none.
abbrev pub output_args : PathPackage → Scan → List String
output_args p scan = if scan.has_dash_o then [] else "-o" ∷ object_name p scan.source_path ∷ []

-- A call of the compiler, and the scan of the arguments that it comes from.
pub record Call (p : PathPackage) (compiler dir : String) (args : List String) (r : Prepared)
    : Type 0 where
  pub scan : Scan
  pub left : List String
  pub front : List String
  pub it_went : scan_args p (is_clang_name compiler) dir plain first_scan args ≡ scanned scan left
  pub one_source : sources (p.join dir "sourcefile") plain left ≡ some 1
  pub its_language : IsLanguage p (is_clang_name compiler) scan front
  pub its_args : r.args ≡ ((front ++ left) ++ flags (is_clang_name compiler)) ++ output_args p scan
  pub its_source : r.source_path ≡ scan.source_path
  pub its_compiler : r.compiler ≡ compiler

-- What is made of arguments with a language and the flags.
record Output (p : PathPackage) (st : Scan) (compiler : String) (xs : List String) (r : Prepared)
    : Type 0 where
  source_is : r.source_path ≡ st.source_path
  compiler_is : r.compiler ≡ compiler
  args_are : r.args ≡ xs ++ output_args p st

args_or : List String → Result Error (List String) → List String
args_or xs (ok ys) = ys
args_or xs (err e) = xs

record Fronted (p : PathPackage) (clang : Bool) (st : Scan) (args xs : List String) : Type 0 where
  front : List String
  language_is : IsLanguage p clang st front
  joined : xs ≡ front ++ args

prepared_or : Prepared → Result Error Prepared → Prepared
prepared_or r (ok x) = x
prepared_or r (err e) = r

-- The rest of the constructor went through.
record Finished (p : PathPackage) (clang : Bool) (compiler : String) (st : Scan) (out : List String)
    (r : Prepared) : Type 0 where
  is_named : is_text st.source_path "" ≡ false
  xs : List String
  fronted : Fronted p clang st out xs
  output : Output p st compiler (xs ++ flags clang) r
