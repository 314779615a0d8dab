-- ===== src/Scheduler/Environments/Removal.antt =====
-- What is left of an environment that was removed.
use fisk.Base.{String, ◌≡◌, ap, ◌∙◌, true, false, none, some, arith, String_discrete}
use fisk.OrderedMap.{get, delete, has, is_some}
use fisk.OrderedMap.Laws.{IsDistinct, delete-IsDistinct, get-delete_self}
use fisk.Scheduler.Environments.{Environments, compatible_environments, unlink, remove, removed}
use fisk.Scheduler.Environments.Links.{linked, contains, compatible_environments_lem, linked-unlink}

remove_links :
    (e : Environments) (hash : String)
    → ¬ (hash ≡ "")
    → has String_discrete hash e.environments ≡ true
    → ((remove e hash true).links ≡ delete String_discrete hash e.links)
      × ((remove e hash true).environments ≡ delete String_discrete hash e.environments)
unfolding remove unlink
remove_links e hash given_hash known = ground (arith, given_hash, known)

-- When the sources of the links are distinct, and an environment that is known and has a name is
-- removed with its file, both parts of `remove` one after the other, then it is compatible with no
-- source any more.
pub removed_forgets :
    (e : Environments) (hash s : String)
    → ¬ (hash ≡ "")
    → has String_discrete hash e.environments ≡ true
    → IsDistinct String_discrete e.links
    → contains hash (compatible_environments (removed (remove e hash true) hash).0 s) ≡ false
unfolding removed unlink
removed_forgets e hash s given_hash known h =
    let r = remove_links e hash given_hash known in
    let e' = (removed (remove e hash true) hash).0 in
    let distinct : IsDistinct String_discrete (remove e hash true).links =
      rw (r.0) (delete-IsDistinct String_discrete hash e.links h) in
    let unlinked_everywhere : linked e'.links s hash ≡ none =
      ground
        (arith, given_hash, linked-unlink (remove e hash true) none (some hash) s hash distinct) in
    let gone : has String_discrete hash e'.environments ≡ false =
      ap is_some
        (ap (get String_discrete hash) r.1 ∙ get-delete_self String_discrete hash e.environments) in
    ground (
      arith,
      compatible_environments_lem e' s hash,
      unlinked_everywhere,
      gone,
      ap (λ k. has String_discrete k e'.environments) {x = s} {y = hash},
    )
