-- ===== src/Scheduler/Environments/Examples.antt =====
-- Two environments, with links from one to the other.
use fisk.Base.{String, ◌≡◌, refl, true, false, [], ◌∷◌, String_discrete}
use fisk.OrderedMap.{get}
use fisk.OrderedMap.Laws.{IsDistinct}
use fisk.Scheduler.Environments.{
  Environments, Environment, LinkProperties, compatible_environments, remove, removed,
}
use fisk.Scheduler.Environments.Links.{contains}
use fisk.Scheduler.Environments.Removal.{removed_forgets}

abbrev env : String → Environment
env hash = record {
  path = hash;
  hash = hash;
  system = "Linux x86_64";
  original_path = "/usr/bin/cc";
}

abbrev properties : LinkProperties
properties = record { arguments = "-m32" ∷ []; blacklist = [] }

abbrev two : Environments
two = record {
  environments = ("a", env "a") ∷ ("b", env "b") ∷ [];
  links = ("a", ("b", properties) ∷ []) ∷ ("c", ("a", properties) ∷ ("b", properties) ∷ []) ∷ [];
}

two-IsDistinct : IsDistinct String_discrete two.links
unfolding get String_discrete
two-IsDistinct = (refl, (refl, tt))

compatible : compatible_environments two "a" ≡ "a" ∷ "b" ∷ []
unfolding compatible_environments get String_discrete
compatible = refl

removed_forgets_example :
    contains "b" (compatible_environments (removed (remove two "b" true) "b").0 "c") ≡ false
unfolding String_discrete get
removed_forgets_example = removed_forgets two "b" "c" (λ e. cc) refl two-IsDistinct
