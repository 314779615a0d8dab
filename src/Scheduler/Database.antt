-- ===== src/Scheduler/Database.antt =====
-- src/scheduler/Database.ts: the records of one file, which operations read and write one at a time.
-- What the file system answers when an operation ends is an argument; what `_read` finds is `records`.
pub mod Order
mod Examples
use fisk.Base.{
  String, Bool, true, false, Option, none, some, List, [], ◌∷◌, ◌++◌, if◌then◌else◌,
  String_discrete,
}
use fisk.OrderedMap.{OrderedMap, get, set}

pub data Operation (V : Type 0) : Type 0 where
  get_record : String → Operation V
  set_record : String → V → Operation V

-- How an operation's promise is settled.
pub data Settled (V : Type 0) : Type 0 where
  resolved_get : Option V → Settled V
  resolved_set : Settled V
  rejected : Settled V

-- `performing` is the operation whose callbacks are to come; `file` is the file.
pub record Database (V : Type 0) : Type 0 where
  pub busy : Bool
  pub queue : List (Operation V)
  pub performing : Option (Operation V)
  pub file : OrderedMap String V

-- What the operation came to: it was done, the file system failed it and the file is as it was, or
-- `_read` found a text that is no JSON and moved the file away. That this move fails is left out.
pub data Answer : Type 0 where
  succeeded failed unparsable : Answer

-- What happens: a call of get or set, or the end of the operation.
pub data Event (V : Type 0) : Type 0 where
  called : Operation V → Event V
  ended : Answer → Event V

-- An operation that has ended.
pub record Performed (V : Type 0) : Type 0 where
  pub operation : Operation V
  pub answer : Answer
  pub settled : Settled V

module _ {V : Type 0} where
  unfoldable pub create : OrderedMap String V → Database V
  create m = record { busy = false; queue = []; performing = none; file = m }

  unfoldable pub call : Database V → Operation V → Database V
  call d op =
      if d.busy
      then record d { queue = d.queue ++ op ∷ [] }
      else record d { busy = true; performing = some op }

  unfoldable pub finished_operation : Database V → Database V
  finished_operation d = elim d.queue [
    | [] ↦ record d { busy = false; performing = none }
    | func ∷ rest ↦ record d { queue = rest; performing = some func }
  ]

  -- What `perform` does to the file, and how it settles.
  unfoldable pub effect :
      OrderedMap String V → Operation V → Answer → OrderedMap String V × Settled V
  effect m op failed = (m, rejected)
  effect m op unparsable = ([], rejected)
  effect m (get_record key) succeeded = (m, resolved_get (get String_discrete key m))
  effect m (set_record key value) succeeded = (set String_discrete key value m, resolved_set)

  -- The end of the operation: the promise of get is resolved after the next operation has begun.
  unfoldable pub perform : Database V → Answer → Database V × List (Performed V)
  unfolding effect finished_operation
  perform d answer = elim d.performing [
    | none ↦ (d, [])
    | some op ↦
        let (m, s) = effect d.file op answer in
        (
          finished_operation (record d { file = m }),
          record { operation = op; answer = answer; settled = s } ∷ [],
        )
  ]

  unfoldable pub step : Database V → Event V → Database V × List (Performed V)
  unfolding call perform
  step d (called op) = (call d op, [])
  step d (ended answer) = perform d answer

  unfoldable pub run : Database V → List (Event V) → Database V × List (Performed V)
  unfolding step
  run d [] = (d, [])
  run d (e ∷ es) = let (d1, out) = step d e in let (d2, out') = run d1 es in (d2, out ++ out')
