-- ===== src/Scheduler/Database/Order.antt =====
-- The operations of the database take effect one after the other, in the order of the calls.
use fisk.Base.{
  String, ◌≡◌, refl, sym, ap, ◌∙◌, true, false, Option, none, some, List, [], ◌∷◌, ◌++◌, map,
  append-nil, append_assoc, ite, String_discrete,
}
use fisk.OrderedMap.{OrderedMap, get}
use fisk.OrderedMap.Laws.{get-set}
use fisk.Scheduler.Database.{
  Answer, succeeded, failed, unparsable, Performed, get_record, set_record, resolved_get,
  resolved_set, rejected, Operation, Settled, Database, Event, called, ended, create, call,
  finished_operation, effect, perform, step, run,
}

-- The states of a database that was created: nothing is to do, or an operation is performed.
data Form (V : Type 0) : Type 0 where
  idle : OrderedMap String V → Form V
  active : OrderedMap String V → Operation V → List (Operation V) → Form V

module _ {V : Type 0} where
  -- The calls, in their order.
  abbrev pub calls : List (Event V) → List (Operation V)
  calls [] = []
  calls (called op ∷ es) = op ∷ calls es
  calls (ended b ∷ es) = calls es

  abbrev pub listed : Option (Operation V) → List (Operation V)
  listed none = []
  listed (some op) = op ∷ []

  -- The operations that are not settled.
  abbrev pub waiting : Database V → List (Operation V)
  waiting d = listed d.performing ++ d.queue

  abbrev pub operations : List (Performed V) → List (Operation V)
  operations = map (λ x. x.operation)

  -- What operations do to records that are a function of their keys.
  abbrev pub then_has : (String → Option V) → Operation V → Answer → String → Option V
  then_has records op failed key = records key
  then_has records op unparsable key = none
  then_has records (get_record k) succeeded key = records key
  then_has records (set_record k v) succeeded key =
      ite (String_discrete k key) (some v) (records key)

  abbrev pub settles : (String → Option V) → Operation V → Answer → Settled V
  settles records op failed = rejected
  settles records op unparsable = rejected
  settles records (get_record k) succeeded = resolved_get (records k)
  settles records (set_record k v) succeeded = resolved_set

  -- Each operation settles by the records that those before it leave.
  abbrev pub IsSettledInTurn : (String → Option V) → List (Performed V) → Type 0
  IsSettledInTurn records [] = Unit {0}
  IsSettledInTurn records (p ∷ log) =
      (p.settled ≡ settles records p.operation p.answer)
      × IsSettledInTurn (then_has records p.operation p.answer) log

  abbrev Has : OrderedMap String V → (String → Option V) → Type 0
  Has m records = (key : String) → get String_discrete key m ≡ records key

  effect-settles :
      (m : OrderedMap String V) (records : String → Option V) (op : Operation V) (a : Answer)
      → Has m records
      → ((effect m op a).1 ≡ settles records op a) × Has (effect m op a).0 (then_has records op a)
  unfolding effect get
  effect-settles m records op failed h = (refl, h)
  effect-settles m records op unparsable h = (refl, λ key. refl)
  effect-settles m records (get_record k) succeeded h = (ap resolved_get (h k), h)
  effect-settles m records (set_record k v) succeeded h = (
    refl,
    λ key. get-set String_discrete k key v m ∙ ap (ite (String_discrete k key) (some v)) (h key),
  )

  unfoldable state_of : Form V → Database V
  state_of (idle m) = record { busy = false; queue = []; performing = none; file = m }
  state_of (active m op q) = record { busy = true; queue = q; performing = some op; file = m }

  file_of : Form V → OrderedMap String V
  file_of (idle m) = m
  file_of (active m op q) = m

  record Ran (f : Form V) (es : List (Event V)) : Type 0 where
    in_order :
        operations (run (state_of f) es).1 ++ waiting (run (state_of f) es).0
        ≡ waiting (state_of f) ++ calls es
    in_turn :
        (records : String → Option V)
        → Has (file_of f) records
        → IsSettledInTurn records (run (state_of f) es).1

  form-Ran : (f : Form V) (es : List (Event V)) → Ran f es
  unfolding run step call perform finished_operation state_of file_of
  form-Ran (idle m) [] = record { in_order = refl; in_turn = λ records h. tt }
  form-Ran (active m op q) [] = record {
    in_order = sym (append-nil (op ∷ q));
    in_turn = λ records h. tt;
  }
  form-Ran (idle m) (called op ∷ es) =
      let r = form-Ran (active m op []) es in record { in_order = r.in_order; in_turn = r.in_turn }
  form-Ran (idle m) (ended b ∷ es) =
      let r = form-Ran (idle m) es in record { in_order = r.in_order; in_turn = r.in_turn }
  form-Ran (active m op q) (called op' ∷ es) =
      let r = form-Ran (active m op (q ++ op' ∷ [])) es in
      record {
        in_order = r.in_order ∙ ap (◌∷◌ op) (append_assoc q (op' ∷ []) (calls es));
        in_turn = r.in_turn;
      }
  form-Ran (active m op []) (ended b ∷ es) =
      let r = form-Ran (idle (effect m op b).0) es in
      record {
        in_order = ap (◌∷◌ op) r.in_order;
        in_turn = λ records h.
            let w = effect-settles m records op b h in (w.0, r.in_turn (then_has records op b) w.1);
      }
  form-Ran (active m op (op' ∷ q)) (ended b ∷ es) =
      let r = form-Ran (active (effect m op b).0 op' q) es in
      record {
        in_order = ap (◌∷◌ op) r.in_order;
        in_turn = λ records h.
            let w = effect-settles m records op b h in (w.0, r.in_turn (then_has records op b) w.1);
      }

  -- From its creation on, whatever is called and however operations end: the operations that ended,
  -- followed by the one that is performed and those in the queue, are the calls in their order, none
  -- lost and none twice; and each settles by the records that those before it leave, where a get that
  -- succeeds is resolved with the value of its key, a set that succeeds changes the value of its key
  -- alone, one that the file system fails is rejected and changes nothing, and one that finds no JSON is
  -- rejected and leaves no record.
  pub run-in_order :
      (m : OrderedMap String V) (es : List (Event V))
      → (operations (run (create m) es).1 ++ waiting (run (create m) es).0 ≡ calls es)
        × IsSettledInTurn (λ key. get String_discrete key m) (run (create m) es).1
  unfolding create state_of file_of
  run-in_order m es = let r = form-Ran (idle m) es in (r.in_order, r.in_turn _ (λ key. refl))
