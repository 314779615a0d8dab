-- ===== src/Scheduler/Sync.antt =====
-- src/scheduler/fisk-scheduler.ts, syncEnvironments, with canRun of Environment.ts: which environments
-- a builder is told to drop and to get. A builder's mark -1 is `false`.
pub mod Marks
mod Examples
use Prim.Native.String.{String}
use text.Mathlib.Text.{starts_with}
use fisk.Base.{
  ite, Bool, true, false, not, ◌&&◌, ◌||◌, List, ◌∷◌, if◌then◌else◌, String_discrete, [],
}
use fisk.OrderedMap.{OrderedMap, set, has}
use fisk.Scheduler.Builder.{Builder}
use fisk.Scheduler.Environments.{Environment}

abbrev is_text : String → String → Bool
is_text s t = ite (String_discrete s t) true false

-- The switch of `canRun`; no two of its cases are equal.
unfoldable pub can_run : Environment → String → Bool
can_run env system =
    if is_text system "Linux i686" || is_text system "Darwin i686"
    then is_text env.system system
    else if is_text system "Linux x86_64"
    then starts_with env.system "Linux "
    else if is_text system "Darwin x86_64" || is_text system "Darwin arm64"
    then starts_with env.system "Darwin "
    else false

-- The loop over the scheduler's environments: the builder's marks, and what it needs.
unfoldable pub mark :
    String
    → OrderedMap String Environment
    → OrderedMap String Bool
    → OrderedMap String Bool × List String
mark system [] have = (have, [])
mark system ((hash, env) ∷ rest) have =
    let here = has String_discrete hash have in
    let marked = if here then set String_discrete hash false have else have in
    let (have', needs) = mark system rest marked in
    (have', if not here && can_run env system then hash ∷ needs else needs)

-- The loop over the builder's environments: those that stay, and what it should drop.
unfoldable pub sweep : OrderedMap String Bool → OrderedMap String Bool × List String
sweep [] = ([], [])
sweep ((hash, unmarked) ∷ rest) =
    let (left, unwanted) = sweep rest in
    if unmarked then (left, hash ∷ unwanted) else ((hash, true) ∷ left, unwanted)

pub record Synced : Type 0 where
  pub builder : Builder
  pub unwanted : List String
  pub needs : List String

unfoldable pub sync_environments : OrderedMap String Environment → Builder → Synced
unfolding mark sweep
sync_environments known b =
    let (have, needs) = mark b.system known b.environments in
    let (left, unwanted) = sweep have in
    record { builder = record b { environments = left }; unwanted = unwanted; needs = needs }
