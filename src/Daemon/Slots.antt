-- ===== src/Daemon/Slots.antt =====
-- src/daemon/Slots.ts: a pool of `count` slots with a queue of waiting requests. A callback is a
-- value of `C`; the calls that a method makes, and the "changed" events that it emits, are listed in
-- their order. Log lines are left out.
pub mod Invariant
pub mod Queue
mod Examples
use fisk.Base.{
  ℕ, ◌+◌, Bool, true, false, ◌&&◌, ◌||◌, List, [], ◌∷◌, ◌++◌, ℕ_discrete, ltb, ◌==◌, is_empty,
  if◌then◌else◌, length,
}
use fisk.OrderedMap.{OrderedMap, set, delete, has}

-- What the pool does to its surroundings.
pub data Event (C : Type 0) : Type 0 where
  changed : Event C
  called : C → Event C

pub record MapData (C : Type 0) : Type 0 where
  pub cb : C
  pub pid : ℕ

pub record Slots (C : Type 0) : Type 0 where
  pub count : ℕ
  pub used : OrderedMap ℕ ℕ
  pub pending : OrderedMap ℕ (MapData C)
  pub total_acquired : ℕ

-- A method returns the pool and its events, or an `assert` of it throws.
pub data Outcome (A : Type 0) : Type 0 where
  done : A → Outcome A
  assertion_failed : Outcome A

module _ {C : Type 0} where
  unfoldable pub create : ℕ → Slots C
  create n = record { count = n; used = []; pending = []; total_acquired = 0 }

  abbrev pub active : Slots C → ℕ
  active s = length s.used

  -- The step that tryAcquire and acquire share: the slot is taken.
  abbrev pub occupy : Slots C → ℕ → ℕ → Slots C
  occupy s id pid = record s {
    used = set ℕ_discrete id pid s.used;
    total_acquired = s.total_acquired + 1;
  }

  unfoldable pub try_acquire : Slots C → ℕ → ℕ → Slots C × List (Event C) × Bool
  try_acquire s id pid =
      if ltb (active s) s.count then (occupy s id pid, changed ∷ [], true) else (s, [], false)

  unfoldable pub acquire : Slots C → ℕ → ℕ → C → Slots C × List (Event C)
  acquire s id pid cb =
      if ltb (active s) s.count
      then (occupy s id pid, changed ∷ called cb ∷ [])
      else (record s { pending = set ℕ_discrete id (record { cb = cb; pid = pid }) s.pending }, [])

  -- The loop over `pending`, which serves the first entry and leaves.
  unfoldable pub serve_first : Slots C → OrderedMap ℕ (MapData C) → Slots C × List (Event C)
  serve_first s [] = (s, [])
  serve_first s ((id, p) ∷ rest) = (
    record s {
      used = set ℕ_discrete id p.pid s.used;
      pending = delete ℕ_discrete id s.pending;
      total_acquired = s.total_acquired + 1;
    },
    called p.cb ∷ [],
  )

  -- The two asserts, after the slot is gone from `used`.
  unfoldable pub release_used : Slots C → Outcome (Slots C × List (Event C))
  release_used s =
      if ltb (active s) s.count && (active s + 1 == s.count || is_empty s.pending)
      then (let (s', events) = serve_first s s.pending in done (s', events ++ changed ∷ []))
      else assertion_failed

  unfoldable pub release : Slots C → ℕ → Outcome (Slots C × List (Event C))
  unfolding release_used
  release s id =
      let s1 = record s { pending = delete ℕ_discrete id s.pending } in
      if has ℕ_discrete id s1.used
      then release_used (record s1 { used = delete ℕ_discrete id s1.used })
      else done (s1, [])

  -- What dump() shows, apart from the pids of the waiting requests.
  unfoldable pub dump : Slots C → OrderedMap ℕ ℕ × List ℕ × ℕ × ℕ
  dump s = (s.used, fisk.OrderedMap.keys s.pending, s.count, active s)
