-- ===== src/Builder/VmCompile/Examples.antt =====
-- A C file with a directory of the client's for its headers.
use Prim.Native.String.{◌++◌ as ◌+++◌}
use fisk.Base.{String, some, List, [], ◌∷◌}
use fisk.Builder.VmCompile.{PathPackage, Prepared}

abbrev path : PathPackage
path = record { basename = λ s. s; extname = λ s. ".c"; join = λ dir file. dir +++ ("/" +++ file) }

abbrev args : List String
args = "-I" ∷ "/home/me/include" ∷ "-MMD" ∷ "-c" ∷ "-o" ∷ "a.o" ∷ "a.c" ∷ []

abbrev called : Prepared
called = record {
  compiler = "gcc";
  args =
      "-x" ∷ "cpp-output" ∷ "-c" ∷ "-o" ∷ "a.o" ∷ "/tmp/1/sourcefile" ∷ "-fpreprocessed"
      ∷ "-fdirectives-only" ∷ [];
  output = some "a.o";
  output_file_name = some "a.o";
  source_path = "a.c";
}
