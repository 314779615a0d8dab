-- ===== src/Scheduler/Choice.antt =====
-- src/scheduler/fisk-scheduler.ts: which builder gets a compile, in the "compile" handler. A score is
-- min(4, slots - activeClients) * (1 - load), which may be below 0: it is kept as the difference of
-- two numbers, times 100, and computed exactly, where the code has floating-point numbers.
pub mod Order
pub mod Search
pub mod Best
mod Examples
use fisk.Base.{
  ℕ, ◌+◌, ◌*◌, min, String, ite, Bool, true, false, not, ◌&&◌, ◌||◌, Option, none, some, List, ◌∷◌,
  ltb, ◌==◌, if◌then◌else◌, String_discrete, holds, [],
}
use fisk.OrderedMap.{has}
use fisk.Scheduler.Builder.{Builder}

-- What a compile asks for; an empty string counts as not given.
pub record Compile : Type 0 where
  pub environment : String
  pub sha1 : Option String
  pub builder : Option String
  pub labels : Option (List String)
  pub npm_version : String

pub record Score : Type 0 where
  pub plus : ℕ
  pub minus : ℕ

unfoldable pub score : Builder → Score
score s =
    let available = min (4 + s.active_clients) s.slots in
    record {
      plus = available * 100 + s.active_clients * s.load;
      minus = available * s.load + s.active_clients * 100;
    }

abbrev pub above : Score → Score → Bool
above a b = ltb (b.plus + a.minus) (a.plus + b.minus)

abbrev pub level : Score → Score → Bool
level a b = a.plus + b.minus == b.plus + a.minus

unfoldable pub has_labels : List String → Option (List String) → Bool
has_labels [] have = true
has_labels (l ∷ ls) none = false
has_labels (l ∷ ls) (some have) = holds String_discrete l have && has_labels ls (some have)

abbrev pub is_text : String → String → Bool
is_text s t = ite (String_discrete s t) true false

unfoldable pub filter_builder : Compile → Builder → Bool
unfolding has_labels
filter_builder c s =
    elim c.builder [ none ↦ true | some wanted ↦ is_text wanted s.ip || is_text wanted s.name ]
    && elim c.labels [ none ↦ true | some ls ↦ has_labels ls s.labels ]

-- The variables `builder`, `bestScore` and `env`: a builder is its identity.
pub record Choice : Type 0 where
  pub id : ℕ
  pub builder : Builder
  pub best_score : Score
  pub env : String

-- The test of both loops.
unfoldable pub is_better : Builder → Option Choice → Bool
is_better s none = true
is_better s (some c) =
    above (score s) c.best_score
    || (level (score s) c.best_score && ltb s.last_job c.builder.last_job)

abbrev pub chosen : ℕ → Builder → String → Choice
chosen id s env = record { id = id; builder = s; best_score = score s; env = env }

unfoldable pub candidate_env : List String → Builder → Option String
candidate_env [] s = none
candidate_env (e ∷ es) s =
    if has String_discrete e s.environments then some e else candidate_env es s

-- data.nodes.forEach: the builders that have the object.
unfoldable pub consider_node : Compile → List String → Option Choice → ℕ × Builder → Option Choice
consider_node c usable best (id, s) =
    if not (filter_builder c s) then best else elim (candidate_env usable s) [
      | none ↦ best
      | some e ↦ if is_better s best then some (chosen id s e) else best
    ]

unfoldable pub best_node :
    Compile → List String → Option Choice → List (ℕ × Builder) → Option Choice
best_node c usable best [] = best
best_node c usable best (s ∷ ss) = best_node c usable (consider_node c usable best s) ss

-- The loop over the environments in the second search.
unfoldable pub try_envs : List String → ℕ → Builder → Option Choice → Option Choice
try_envs [] id s best = best
try_envs (e ∷ es) id s best =
    let rest = try_envs es id s best in
    if has String_discrete e s.environments && is_better s best then some (chosen id s e) else rest

-- forEachBuilder: all builders.
unfoldable pub consider_builder :
    Compile → List String → Option Choice → ℕ × Builder → Option Choice
consider_builder c usable best (id, s) =
    if not (filter_builder c s) then best else try_envs usable id s best

unfoldable pub best_builder :
    Compile → List String → Option Choice → List (ℕ × Builder) → Option Choice
best_builder c usable best [] = best
best_builder c usable best (s ∷ ss) = best_builder c usable (consider_builder c usable best s) ss

-- The builder for a compile: `nodes` are those that have its object, `all` are all.
unfoldable pub choose :
    Compile → List String → List (ℕ × Builder) → List (ℕ × Builder) → Option Choice
choose c usable nodes all = elim (best_node c usable none nodes) [
  | none ↦ best_builder c usable none all
  | some b ↦ some b
]
