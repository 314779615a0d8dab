-- ===== src/Scheduler/Environments.antt =====
-- src/scheduler/Environments.ts with Links.ts, LinkProperties.ts and Environment.ts: the compiler
-- environments, and which of them may stand in for which. An omitted argument is `none`; an empty
-- string is as falsy as an omitted one. What the file system and the database answer is an argument;
-- a database write saves all links, which is the result's second part.
pub mod Links
pub mod Removal
mod Examples
use fisk.Base.{
  String, ite, Bool, ◌&&◌, Option, none, some, List, [], ◌∷◌, ◌++◌, if◌then◌else◌, String_discrete,
  is_empty,
}
use fisk.OrderedMap.{OrderedMap, get, set, delete, has, keys}

pub record LinkProperties : Type 0 where
  pub arguments : List String
  pub blacklist : List String

abbrev pub LinkMap : Type 0
LinkMap = OrderedMap String LinkProperties

pub record Environment : Type 0 where
  pub path : String
  pub hash : String
  pub system : String
  pub original_path : String

pub record Environments : Type 0 where
  pub environments : OrderedMap String Environment
  pub links : OrderedMap String LinkMap

-- The saved links, which the database gets.
abbrev pub Synced : Type 0
Synced = Environments × OrderedMap String LinkMap

abbrev pub sync_links : Environments → Synced
sync_links e = (e, e.links)

unfoldable pub create : Environments
create = record { environments = []; links = [] }

unfoldable pub has_environment : Environments → String → Bool
has_environment e hash = has String_discrete hash e.environments

unfoldable pub environment : Environments → String → Option Environment
environment e hash = get String_discrete hash e.environments

-- `prepare`: the hash of the file that is opened, unless the environment is there.
unfoldable pub prepare : Environments → Environment → Option String
prepare e env = if has String_discrete env.hash e.environments then none else some env.hash

-- `complete`, when the compiler's info could be read from the file.
unfoldable pub complete : Environments → Environment → Environments
complete e env = record e { environments = set String_discrete env.hash env e.environments }

abbrev pub target_hashes : Option LinkMap → List String
target_hashes none = []
target_hashes (some targets) = keys targets

unfoldable pub compatible_environments : Environments → String → List String
compatible_environments e src_hash =
    (if has String_discrete src_hash e.environments then src_hash ∷ [] else [])
    ++ target_hashes (get String_discrete src_hash e.links)

abbrev pub arguments_of : Option LinkProperties → List String
arguments_of none = []
arguments_of (some p) = p.arguments

abbrev pub extra_args_of : Option LinkMap → String → List String
extra_args_of none target_hash = []
extra_args_of (some targets) target_hash = arguments_of (get String_discrete target_hash targets)

unfoldable pub extra_args : Environments → String → String → List String
extra_args e src_hash target_hash = extra_args_of (get String_discrete src_hash e.links) target_hash

abbrev pub links_or_new : Option LinkMap → LinkMap
links_or_new none = []
links_or_new (some targets) = targets

unfoldable pub link : Environments → String → String → List String → List String → Synced
link e src_hash target_hash args blacklist =
    let targets = links_or_new (get String_discrete src_hash e.links) in
    let p : LinkProperties = record { arguments = args; blacklist = blacklist } in
    sync_links (record e {
      links = set String_discrete src_hash (set String_discrete target_hash p targets) e.links;
    })

-- A target leaves the links of each source, and a source without targets goes.
unfoldable pub unset_all : String → OrderedMap String LinkMap → OrderedMap String LinkMap
unset_all target_hash [] = []
unset_all target_hash ((src, targets) ∷ rest) =
    let left = delete String_discrete target_hash targets in
    if is_empty left then unset_all target_hash rest else (src, left) ∷ unset_all target_hash rest

unfoldable pub unset_one : String → String → OrderedMap String LinkMap → OrderedMap String LinkMap
unset_one src_hash target_hash links = elim (get String_discrete src_hash links) [
  | none ↦ links
  | some targets ↦
      let left = delete String_discrete target_hash targets in
      if is_empty left
      then delete String_discrete src_hash links
      else set String_discrete src_hash left links
]

-- An argument that counts as given.
abbrev pub given : Option String → Option String
given none = none
given (some s) = ite (String_discrete s "") none (some s)

abbrev pub unlinked :
    Option String → Option String → OrderedMap String LinkMap → OrderedMap String LinkMap
unlinked none none links = links
unlinked none (some target_hash) links = unset_all target_hash links
unlinked (some src_hash) none links = delete String_discrete src_hash links
unlinked (some src_hash) (some target_hash) links = unset_one src_hash target_hash links

unfoldable pub unlink : Environments → Option String → Option String → Synced
unlink e src_hash target_hash =
    sync_links (record e { links = unlinked (given src_hash) (given target_hash) e.links })

-- `remove`, until its first wait for the database: whether the tar file could be removed is given.
unfoldable pub remove : Environments → String → Bool → Environments
unfolding unlink
remove e hash file_removed =
    let e' = record e { environments = delete String_discrete hash e.environments } in
    if has String_discrete hash e.environments && file_removed
    then (unlink e' (some hash) none).0
    else e

-- What `remove` does when the database has saved the links; it then saves them once more.
unfoldable pub removed : Environments → String → Synced
removed e hash = unlink e none (some hash)
