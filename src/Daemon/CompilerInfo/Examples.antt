-- ===== src/Daemon/CompilerInfo/Examples.antt =====
-- A clang and a gcc, by what their probes answer.
use fisk.Base.{◌≡◌, refl, none, [], ◌∷◌, ◌++◌, arith}
use fisk.Daemon.CompilerInfo.{
  Text, codes, ProbeOutputs, parse_version, number_from, create_compiler_info,
  detect_type_from_macros, version_from_macros, find_line, strip_prefix, first_line, macro_value,
  trim, trim_start, trim_end, clang_version, strip_quotes, dotted, digits, after_dot, version_of,
  version_of_macros, clang, gcc,
}
use fisk.Daemon.CompilerInfo.Versions.{parse_version_lem}
use fisk.Daemon.CompilerInfo.Fingerprint.{NulFree, SameAnswers, same_fingerprint}

abbrev line_feed : Text
line_feed = 10 ∷ []

abbrev clang_macros : Text
clang_macros =
    codes "#define __GNUC__ 4"
    ++ line_feed
    ++ codes "#define __clang__ 1"
    ++ line_feed
    ++ codes "#define __clang_version__ \"18.1.8 (rc)\""

abbrev probes : Text → ProbeOutputs
probes macros = record {
  dumpmachine = codes "x86";
  dumpversion = codes "18";
  dumpfullversion = none;
  builtins_c = macros;
  builtins_cxx = [];
}

finds_clang : create_compiler_info (λ t. "DIGEST") (probes clang_macros) ≡ record {
  hash = "DIGEST";
  type = clang;
  version = record { major = 18; minor = 1; patch = 8 };
}
unfolding create_compiler_info detect_type_from_macros version_from_macros find_line strip_prefix
    first_line macro_value trim trim_start trim_end clang_version strip_quotes parse_version dotted
    digits after_dot number_from version_of
finds_clang = refl

-- A gcc without its macros is known by its dumpversion.
finds_gcc :
    create_compiler_info (λ t. "DIGEST") (probes (codes "#define __GNUC__ x"))
    ≡ record { hash = "DIGEST"; type = gcc; version = record { major = 18; minor = 0; patch = 0 } }
unfolding create_compiler_info detect_type_from_macros version_from_macros version_of_macros
    find_line strip_prefix first_line macro_value trim trim_start trim_end parse_version dotted
    digits after_dot number_from version_of
finds_gcc = refl

parse_version_lem_example :
    parse_version (codes "18.1.10-rc") ≡ record { major = 18; minor = 1; patch = 10 }
unfolding number_from
parse_version_lem_example =
    parse_version_lem (codes "18") (codes "1") (codes "10") (codes "-rc") (refl, (refl, tt)) refl
      (refl, tt) refl (refl, (refl, tt)) refl refl

probes-NulFree : NulFree (probes [])
probes-NulFree = record {
  dumpmachine = ((λ e. omega (arith, e)), ((λ e. omega (arith, e)), ((λ e. omega (arith, e)), tt)));
  dumpversion = ((λ e. omega (arith, e)), ((λ e. omega (arith, e)), tt));
  dumpfullversion = tt;
  builtins_c = tt;
}

same_fingerprint_example : SameAnswers (probes []) (probes [])
same_fingerprint_example =
    same_fingerprint (probes []) (probes []) probes-NulFree probes-NulFree refl
