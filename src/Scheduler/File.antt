-- ===== src/Scheduler/File.antt =====
-- src/scheduler/File.ts: the writes of an upload to its file, one at a time. What `fs.write` answers
-- is an event; `contents` are the data of the writes that it fulfilled. `ticks` says that a call of
-- `_write` waits for the next tick, and `in_flight` is the data of the write that is not answered.
-- That fs.closeSync or fs.unlinkSync throws is left out.
pub mod Order
pub mod Drain
mod Examples
use fisk.Base.{
  ℕ, zero, suc, Bool, true, false, Option, none, some, List, [], ◌∷◌, ◌++◌, map, if◌then◌else◌,
}

-- What comes of a call of save: its promise is made, and settled later, or never, when an `assert`
-- throws that finds the file closed (the handlers of uncaught exceptions and rejections go on).
pub data Promised (D : Type 0) : Type 0 where
  pushed : D → Promised D
  resolved : D → Promised D
  rejected : D → Promised D
  forgotten : D → Promised D

pub record File (D : Type 0) : Type 0 where
  pub fd : Option ℕ
  pub linked : Bool
  pub pending : Option (List D)
  pub writing : Bool
  pub ticks : Bool
  pub in_flight : Option D
  pub contents : List D

pub data Event (D : Type 0) : Type 0 where
  saved : D → Event D
  answered : Bool → Event D
  ticked : Event D
  closed : Event D
  discarded : Event D

module _ {D : Type 0} where
  unfoldable pub create : ℕ → File D
  create n = record {
    fd = some n;
    linked = true;
    pending = none;
    writing = false;
    ticks = false;
    in_flight = none;
    contents = [];
  }

  unfoldable pub entries : Option (List D) → List D
  entries none = []
  entries (some ps) = ps

  -- `_write`. Its second `assert` comes after shift.
  unfoldable pub write : File D → File D × List (Promised D)
  write f = elim f.pending [
    | none ↦ (f, [])
    | some ps ↦ elim ps [
      | [] ↦ (f, [])
      | p ∷ rest ↦ elim f.fd [
        | none ↦ (record f { pending = some rest }, forgotten p ∷ [])
        | some n ↦ (record f { pending = some rest; in_flight = some p }, [])
      ]
    ]
  ]

  -- `save`; none when it throws.
  unfoldable pub save : File D → D → Option (File D × List (Promised D))
  unfolding write entries
  save f d = elim f.fd [
    | none ↦ none
    | some n ↦
        let f' = record f { pending = some (entries f.pending ++ d ∷ []) } in
        if f.writing
        then some (f', pushed d ∷ [])
        else (let (f'', out) = write (record f' { writing = true }) in some (f'', pushed d ∷ out))
  ]

  -- The handler of `catch` with `_clearPending`, and the data whose promises it rejects; none when its
  -- `assert` throws.
  unfoldable pub catch_error : File D → Option (File D × List D)
  unfolding entries
  catch_error f = elim f.fd [
    | none ↦ none
    | some n ↦ some (record f { fd = none; pending = none }, entries f.pending)
  ]

  -- The handler of `then`: the promise is resolved first, so nothing rejects it when the `assert` throws.
  unfoldable pub on_written : File D → D → File D × List (Promised D)
  unfolding catch_error
  on_written f d = elim f.pending [
    | none ↦ elim (catch_error f) [
      | none ↦ (f, resolved d ∷ [])
      | some (f', ds) ↦ (f', resolved d ∷ map rejected ds)
    ]
    | some ps ↦ elim ps [
      | [] ↦ (record f { writing = false }, resolved d ∷ [])
      | p ∷ rest ↦ (record f { ticks = true }, resolved d ∷ [])
    ]
  ]

  unfoldable pub on_failed : File D → D → File D × List (Promised D)
  unfolding catch_error
  on_failed f d = elim (catch_error f) [
    | none ↦ (f, forgotten d ∷ [])
    | some (f', ds) ↦ (f', rejected d ∷ map rejected ds)
  ]

  -- The answer of fs.write, if there is a write that waits for it.
  unfoldable pub on_answer : File D → Bool → File D × List (Promised D)
  unfolding on_written on_failed
  on_answer f ok = elim f.in_flight [
    | none ↦ (f, [])
    | some d ↦
        if ok
        then on_written (record f { in_flight = none; contents = f.contents ++ d ∷ [] }) d
        else on_failed (record f { in_flight = none }) d
  ]

  -- `close`; none when it throws.
  unfoldable pub close : File D → Option (File D)
  close f = elim f.fd [ none ↦ none | some n ↦ some (record f { fd = none }) ]

  -- `discard`, which keeps the descriptor's number, and throws for the descriptor 0.
  unfoldable pub discard : File D → Option (File D)
  discard f = elim f.fd [
    | none ↦ none
    | some n ↦ elim n [ zero ↦ none | suc k ↦ some (record f { linked = false }) ]
  ]

  -- What a call throws changes nothing: its caller catches it.
  unfoldable pub caught : File D → Option (File D × List (Promised D)) → File D × List (Promised D)
  caught f none = (f, [])
  caught f (some r) = r

  abbrev pub silent : Option (File D) → Option (File D × List (Promised D))
  silent none = none
  silent (some f) = some (f, [])

  unfoldable pub step : File D → Event D → File D × List (Promised D)
  unfolding save on_answer write close discard caught
  step f (saved d) = caught f (save f d)
  step f (answered ok) = on_answer f ok
  step f ticked = if f.ticks then write (record f { ticks = false }) else (f, [])
  step f closed = caught f (silent (close f))
  step f discarded = caught f (silent (discard f))

  unfoldable pub run : File D → List (Event D) → File D × List (Promised D)
  unfolding step
  run f [] = (f, [])
  run f (e ∷ es) = let (f', out) = step f e in let (f'', out') = run f' es in (f'', out ++ out')
