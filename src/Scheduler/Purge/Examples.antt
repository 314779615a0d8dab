-- ===== src/Scheduler/Purge/Examples.antt =====
-- Three environments and a maximum of 10.
use fisk.Base.{ℕ, ◌≡◌, refl, true, not, is_empty, some, none, List, [], ◌∷◌, ◌++◌, zero, suc, arith}
use fisk.Scheduler.Purge.{
  Text, tar_gz, hash_of, EnvInfo, EnvFile, env_infos, unexpected_files, fit, purge_environments,
}
use fisk.Scheduler.Purge.Listed.{Lists}
use fisk.Scheduler.Purge.Size.{IsFit, purge_environments-IsFit}

abbrev repeated : ℕ → ℕ → Text
repeated zero c = []
repeated (suc n) c = c ∷ repeated n c

-- The environment whose hash is 40 times this character.
abbrev file : ℕ → ℕ → EnvFile
file c size = record { name = repeated 40 c ++ tar_gz; stat = some (size, 0) }

abbrev newest : ℕ
newest = 97

abbrev large : ℕ
large = 98

abbrev oldest : ℕ
oldest = 99

-- One that is too long for an environment, with the same characters where an environment has its hash.
abbrev notes : Text
notes = repeated 41 newest ++ tar_gz

abbrev files : List EnvFile
files = file newest 6 ∷ file large 5 ∷ file oldest 4 ∷ record { name = notes; stat = none } ∷ []

-- The sort of files that stand in their order.
abbrev sort : List EnvInfo → List EnvInfo
sort envs = envs

purges_the_large : purge_environments sort 10 files ≡ (
  record {
    kept =
        record { hash = repeated 40 newest; size = 6; created = 0 }
        ∷ record { hash = repeated 40 oldest; size = 4; created = 0 }
        ∷ [];
    removed = record { hash = repeated 40 large; size = 5; created = 0 } ∷ [];
    unexpected = notes ∷ [];
  },
  true,
)
unfolding purge_environments hash_of env_infos unexpected_files fit
purges_the_large = refl

purge_environments-IsFit_example :
    Lists files (env_infos files)
    × IsFit 10
        (sort (env_infos files))
        ((purge_environments sort 10 files).0.kept, (purge_environments sort 10 files).0.removed)
    × ((purge_environments sort 10 files).1
        ≡ not (is_empty (purge_environments sort 10 files).0.removed))
purge_environments-IsFit_example = purge_environments-IsFit sort 10 files (omega arith)
