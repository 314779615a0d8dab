-- ===== src/Scheduler/Purge.antt =====
-- src/scheduler/fisk-scheduler.ts: purgeEnvironmentsToMaxSize. The files of the directory are an
-- argument: the name of each, which is a list of its characters' codes, with its size and time of
-- birth by stat, none when stat throws; so is the sort by the time of birth, newest first, which is
-- Array.sort's. What it returns are the environments that stay, those that Environments.remove is
-- called for, and the files that it removes.
pub mod Listed
pub mod Size
mod Examples
use fisk.Base.{
  ℕ, ◌-◌, Bool, true, false, not, ◌&&◌, Option, none, some, List, [], ◌∷◌, ◌||◌, length, drop, take,
  leb, ◌==◌, is_empty, if◌then◌else◌,
}

abbrev pub Text : Type 0
Text = List ℕ

pub record EnvInfo : Type 0 where
  pub hash : Text
  pub size : ℕ
  pub created : ℕ

pub record EnvFile : Type 0 where
  pub name : Text
  pub stat : Option (ℕ × ℕ)

pub record Purged : Type 0 where
  pub kept : List EnvInfo
  pub removed : List EnvInfo
  pub unexpected : List Text

abbrev pub begins_with : Text → Text → Bool
begins_with [] text = true
begins_with (c ∷ cs) [] = false
begins_with (c ∷ cs) (d ∷ ds) = (c == d) && begins_with cs ds

-- ".tar.gz"
abbrev pub tar_gz : Text
tar_gz = 46 ∷ 116 ∷ 97 ∷ 114 ∷ 46 ∷ 103 ∷ 122 ∷ []

-- The hash in a file's name: none for a file that is no environment.
unfoldable pub hash_of : Text → Option Text
hash_of name =
    if not (length name == 47) || not (begins_with tar_gz (drop 40 name))
    then none
    else some (take 40 name)

-- The callback of map, and the filter.
unfoldable pub env_infos : List EnvFile → List EnvInfo
unfolding hash_of
env_infos [] = []
env_infos (f ∷ fs) =
    let rest = env_infos fs in
    elim (hash_of f.name) [
      | none ↦ rest
      | some h ↦ elim f.stat [
        | none ↦ rest
        | some s ↦ record { hash = h; size = s.0; created = s.1 } ∷ rest
      ]
    ]

unfoldable pub unexpected_files : List EnvFile → List Text
unfolding hash_of
unexpected_files [] = []
unexpected_files (f ∷ fs) =
    let rest = unexpected_files fs in elim (hash_of f.name) [ none ↦ f.name ∷ rest | some h ↦ rest ]

-- The callback of forEach, with what is left of the maximum: the environments that stay, and those
-- that are removed.
unfoldable pub fit : ℕ → List EnvInfo → List EnvInfo × List EnvInfo
fit max_size [] = ([], [])
fit max_size (env ∷ envs) =
    let kept = fit (max_size - env.size) envs in
    let removed = fit max_size envs in
    if leb env.size max_size then (env ∷ kept.0, kept.1) else (removed.0, env ∷ removed.1)

unfoldable pub purge_environments : (List EnvInfo → List EnvInfo) → ℕ → List EnvFile → Purged × Bool
unfolding env_infos unexpected_files fit
purge_environments sort max_size files =
    let r = fit max_size (sort (env_infos files)) in
    if max_size == 0
    then (record { kept = env_infos files; removed = []; unexpected = [] }, false)
    else (
      record { kept = r.0; removed = r.1; unexpected = unexpected_files files },
      not (is_empty r.1),
    )
