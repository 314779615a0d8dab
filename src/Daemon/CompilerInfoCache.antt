-- ===== src/Daemon/CompilerInfoCache.antt =====
-- src/daemon/CompilerInfoCache.ts: the class CompilerInfoCache. A caller of `get` is known by a number;
-- its key, the resolved path with the time of the file, is what realpath and stat answer, none when
-- one of them fails. The handlers of a computation's promise run together, when it is settled.
pub mod Callers
pub mod Computes
mod Examples
use fisk.Base.{String, ℕ, Option, none, some, List, [], ◌∷◌, ◌++◌, map, String_discrete}
use fisk.OrderedMap.{OrderedMap, get, set, delete}

-- What `get` does for a caller, at once or later: it starts a computation, or the caller's promise is
-- resolved or rejected.
pub data Effect (I : Type 0) : Type 0 where
  computes : String → Effect I
  resolved : ℕ → I → Effect I
  rejected : ℕ → Effect I

-- `pending` has the callers that wait for the computation of a key.
pub record CompilerInfoCache (I : Type 0) : Type 0 where
  pub cache : OrderedMap String I
  pub pending : OrderedMap String (List ℕ)

-- A call of `get` with its key, and the end of a computation, none when it fails.
pub data Event (I : Type 0) : Type 0 where
  asked : ℕ → Option String → Event I
  computed : String → Option I → Event I

module _ {I : Type 0} where
  abbrev pub start : CompilerInfoCache I
  start = record { cache = []; pending = [] }

  unfoldable pub get_info :
      CompilerInfoCache I → ℕ → Option String → CompilerInfoCache I × List (Effect I)
  get_info s caller none = (s, rejected caller ∷ [])
  get_info s caller (some key) = elim (get String_discrete key s.cache) [
    | some info ↦ (s, resolved caller info ∷ [])
    | none ↦ elim (get String_discrete key s.pending) [
      | some callers ↦
          (record s { pending = set String_discrete key (callers ++ caller ∷ []) s.pending }, [])
      | none ↦ (
        record s { pending = set String_discrete key (caller ∷ []) s.pending },
        computes key ∷ [],
      )
    ]
  ]

  -- What the callers hear of the end of their computation.
  unfoldable pub answers : List ℕ → Option I → List (Effect I)
  answers callers none = map rejected callers
  answers callers (some info) = map (λ c. resolved c info) callers

  -- What the end of a computation leaves in the cache.
  unfoldable pub remember : String → Option I → OrderedMap String I → OrderedMap String I
  remember key none m = m
  remember key (some info) m = set String_discrete key info m

  -- The handlers `then` and `finally`. A key with no computation has no end.
  unfoldable pub on_computed :
      CompilerInfoCache I → String → Option I → CompilerInfoCache I × List (Effect I)
  unfolding answers remember
  on_computed s key result = elim (get String_discrete key s.pending) [
    | none ↦ (s, [])
    | some callers ↦ (
      record {
        cache = remember key result s.cache;
        pending = delete String_discrete key s.pending;
      },
      answers callers result,
    )
  ]

  unfoldable pub step : CompilerInfoCache I → Event I → CompilerInfoCache I × List (Effect I)
  unfolding get_info on_computed
  step s (asked caller key) = get_info s caller key
  step s (computed key result) = on_computed s key result

  unfoldable pub run : CompilerInfoCache I → List (Event I) → CompilerInfoCache I × List (Effect I)
  unfolding step
  run s [] = (s, [])
  run s (e ∷ es) = let (s', out) = step s e in let (s'', out') = run s' es in (s'', out ++ out')
