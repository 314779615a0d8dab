-- ===== src/Scheduler/Program/Examples.antt =====
-- Two builders, of which the first goes, and compiles for them.
use fisk.Base.{
  String, ◌≡◌, refl, true, false, none, some, List, ◌∷◌, ℕ_discrete, String_discrete, holds,
  take_out, push_new, [],
}
use fisk.OrderedMap.{get, set, delete}
use fisk.Scheduler.Builder
use fisk.Scheduler.Builder.{Headers, named, builder_key}
use fisk.Scheduler.Choice.{
  Compile, score, filter_builder, is_better, best_node, try_envs, consider_builder, best_builder,
  choose,
}
use fisk.Scheduler.Environments.{Environments, compatible_environments, has_environment}
use fisk.Scheduler.Sync.{can_run, mark, sweep, sync_environments}
use fisk.Scheduler.Program.{
  Versions, start, on_builder, on_builder_close, values, address_of, with_cache, look_up, sync_one,
  insert_builder, remove_builder, next_job_id,
}
use fisk.Scheduler.Program.Compiles.{
  on_compile, other_environment, schedule, find_builder, choice_for, cached_nodes, record_all,
}
use fisk.Scheduler.Program.Events.{
  Event, step, run, on_builder_event, builder_arrived, from_builder, compile_arrived, closed,
}
use fisk.Scheduler.Program.Counts.{IsCounted}
use fisk.Scheduler.Program.Steps.{run-IsCounted}
use fisk.Scheduler.Program.Assignment.{on_compile-run-connected}
use fisk.Scheduler.Program.Answers.{IsAnswered, on_compile-IsAnswered}

abbrev versions : Versions
versions = record { older = λ a b. false; scheduler = "5.0.6"; client_minimum = "5.0.0" }

abbrev headers : String → Headers
headers ip = record {
  ip = ip;
  port = "8096";
  name = ip;
  hostname = "";
  labels = none;
  npm_version = "5.0.6";
  system = "Linux x86_64";
  slots = 4;
  environments = "e" ∷ [];
}

abbrev known : Environments
known = record {
  environments =
      (
        "e",
        record {
          path = "e.tar.gz";
          hash = "e";
          system = "Linux x86_64";
          original_path = "/usr/bin/cc";
        },
      )
      ∷ [];
  links = [];
}

abbrev compile : Compile
compile = record {
  environment = "e";
  sha1 = none;
  builder = none;
  labels = none;
  npm_version = "5.0.6";
}

abbrev events : List Event
events =
    builder_arrived 1 (headers "10.0.0.1")
    ∷ builder_arrived 2 (headers "10.0.0.2")
    ∷ from_builder 1 closed
    ∷ []

abbrev same_address : List Event
same_address =
    builder_arrived 1 (headers "10.0.0.1")
    ∷ builder_arrived 2 (headers "10.0.0.1")
    ∷ from_builder 1 closed
    ∷ []

given_the_second :
    get ℕ_discrete 7
      (on_compile versions (run versions (start known []) events) 5 7 compile).0.assigned
    ≡ some 2
unfolding on_compile run start step on_builder on_builder_event on_builder_close find_builder
    schedule choice_for cached_nodes look_up values address_of other_environment sync_one
    insert_builder remove_builder next_job_id record_all choose best_node best_builder
    consider_builder try_envs filter_builder is_better score Builder.create named set get delete
    builder_key String_discrete compatible_environments has_environment can_run mark sweep
    sync_environments with_cache push_new take_out ℕ_discrete
given_the_second = refl

-- Two builders of one address: when the first goes the second is connected, but no compile gets it.
unreachable :
    ((run versions (start known []) same_address).connected ≡ 2 ∷ [])
    × (choice_for (run versions (start known []) same_address) compile ≡ none)
unfolding on_compile run start step on_builder on_builder_event on_builder_close find_builder
    schedule choice_for cached_nodes look_up values address_of other_environment sync_one
    insert_builder remove_builder next_job_id record_all choose best_node best_builder
    consider_builder try_envs filter_builder is_better score Builder.create named set get delete
    builder_key String_discrete compatible_environments has_environment can_run mark sweep
    sync_environments with_cache push_new take_out ℕ_discrete
unreachable = (refl, refl)

run-IsCounted_example :
    IsCounted (run versions (start known []) (compile_arrived 7 5 compile ∷ events))
run-IsCounted_example = run-IsCounted versions known [] (compile_arrived 7 5 compile ∷ events)

none_before : get ℕ_discrete 7 (run versions (start known []) events).assigned ≡ none
unfolding on_compile run start step on_builder on_builder_event on_builder_close find_builder
    schedule choice_for cached_nodes look_up values address_of other_environment sync_one
    insert_builder remove_builder next_job_id record_all choose best_node best_builder
    consider_builder try_envs filter_builder is_better score Builder.create named set get delete
    builder_key String_discrete compatible_environments has_environment can_run mark sweep
    sync_environments with_cache push_new take_out ℕ_discrete
none_before = refl

on_compile-run-connected_example :
    holds ℕ_discrete 2 (run versions (start known []) events).connected ≡ true
on_compile-run-connected_example =
    on_compile-run-connected versions known [] events 5 7 compile 2 (tt, (tt, (tt, tt))) none_before
      given_the_second

on_compile-IsAnswered_example :
    IsAnswered 7
      (run versions (start known []) events)
      (on_compile versions (run versions (start known []) events) 5 7 compile)
on_compile-IsAnswered_example =
    on_compile-IsAnswered versions (run versions (start known []) events) 5 7 compile
