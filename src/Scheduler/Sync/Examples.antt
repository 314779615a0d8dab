-- ===== src/Scheduler/Sync/Examples.antt =====
-- A builder with one environment that is known and one that is not, and a scheduler with one more.
use fisk.Base.{
  String, ◌≡◌, refl, true, not, ◌&&◌, none, some, ◌∷◌, if◌then◌else◌, String_discrete, holds, [],
}
use fisk.OrderedMap.{OrderedMap, get, has}
use fisk.Scheduler.Builder
use fisk.Scheduler.Builder.{Builder}
use fisk.Scheduler.Environments.{Environment}
use fisk.Scheduler.Sync.{sync_environments}
use fisk.Scheduler.Sync.Marks.{lacks, sync_environments_lem}

abbrev env : String → Environment
env hash = record {
  path = hash;
  hash = hash;
  system = "Linux x86_64";
  original_path = "/usr/bin/cc";
}

abbrev known : OrderedMap String Environment
known = ("a", env "a") ∷ ("b", env "b") ∷ []

abbrev builder : Builder
builder =
    record (Builder.create (record {
      ip = "10.0.0.1";
      port = "8096";
      name = "one";
      hostname = "";
      labels = none;
      npm_version = "5.0.6";
      system = "Linux x86_64";
      slots = 4;
      environments = [];
    })) { environments = ("a", true) ∷ ("c", true) ∷ [] }

sync_environments_lem_example :
    (get String_discrete "c" (sync_environments known builder).builder.environments ≡ (
      if has String_discrete "c" known && has String_discrete "c" builder.environments
      then some true
      else none))
    × ((holds String_discrete "c" (sync_environments known builder).unwanted
          ≡ has String_discrete "c" builder.environments && not (has String_discrete "c" known))
        × (holds String_discrete "c" (sync_environments known builder).needs
            ≡ lacks builder.system
                (get String_discrete "c" known)
                (has String_discrete "c" builder.environments)))
unfolding String_discrete get Builder.create
sync_environments_lem_example =
    sync_environments_lem known builder "c" (refl, (refl, tt)) (refl, (refl, tt)) (λ e. cc)
