-- ===== src/Scheduler/Choice/Examples.antt =====
-- Three builders of two slots, and the theorems on them.
use fisk.Base.{ℕ, String, ◌≡◌, refl, ◌⊎◌, none, some, List, ◌∷◌, String_discrete, []}
use fisk.OrderedMap.{get, set}
use fisk.Scheduler.Builder
use fisk.Scheduler.Builder.{named}
use fisk.Scheduler.Choice.{
  Compile, score, filter_builder, is_better, chosen, best_node, try_envs, consider_builder,
  best_builder, choose,
}
use fisk.Scheduler.Choice.Best.{IsBest, NoneEligible, choose-IsBest, choose-none}

abbrev connected : String → Builder.Builder
connected ip = Builder.create (record {
  ip = ip;
  port = "8096";
  name = ip;
  hostname = "";
  labels = none;
  npm_version = "5.0.6";
  system = "Linux x86_64";
  slots = 2;
  environments = "e" ∷ [];
})

abbrev busy : Builder.Builder
busy = record (connected "10.0.0.1") { active_clients = 3 }

abbrev loaded : Builder.Builder
loaded = record (connected "10.0.0.2") { load = 60 }

abbrev idle : Builder.Builder
idle = record (connected "10.0.0.3") { load = 10 }

abbrev all : List (ℕ × Builder.Builder)
all = (1, busy) ∷ (2, loaded) ∷ (3, idle) ∷ []

abbrev compile : Compile
compile = record {
  environment = "e";
  sha1 = none;
  builder = none;
  labels = none;
  npm_version = "5.0.6";
}

idle-chosen : choose compile ("e" ∷ []) [] all ≡ some (chosen 3 idle "e")
unfolding choose best_node best_builder consider_builder try_envs filter_builder is_better score
    Builder.create named set get String_discrete
idle-chosen = refl

choose-IsBest_example :
    IsBest compile ("e" ∷ []) (chosen 3 idle "e") []
    ⊎ (NoneEligible compile ("e" ∷ []) [] × IsBest compile ("e" ∷ []) (chosen 3 idle "e") all)
choose-IsBest_example = choose-IsBest compile ("e" ∷ []) [] all (chosen 3 idle "e") idle-chosen

none_chosen : choose compile ("f" ∷ []) [] all ≡ none
unfolding choose best_node best_builder consider_builder try_envs filter_builder is_better score
    Builder.create named set get String_discrete
none_chosen = refl

choose-none_example : NoneEligible compile ("f" ∷ []) [] × NoneEligible compile ("f" ∷ []) all
choose-none_example = choose-none compile ("f" ∷ []) [] all none_chosen
