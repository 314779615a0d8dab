-- ===== src/Scheduler/File/Order.antt =====
-- The data of an upload are written in the order of the calls of save.
use fisk.Base.{
  ℕ, zero, suc, ◌≡◌, refl, sym, ap, ◌∙◌, Bool, true, false, Option, none, some, List, [], ◌∷◌, ◌++◌,
  map, append-nil, append_assoc,
}
use fisk.Scheduler.File.{
  Promised, pushed, resolved, rejected, forgotten, File, Event, saved, answered, ticked, closed,
  discarded, create, entries, write, save, catch_error, on_written, on_failed, on_answer, close,
  discard, caught, step, run,
}

-- How the writes stand while none has failed: nothing was saved yet, all is written, a write is
-- in flight, or the next one waits for its tick.
data Form (D : Type 0) : Type 0 where
  fresh : Form D
  idle : Form D
  busy : D → List D → Form D
  between : D → List D → Form D

module _ {D : Type 0} where
  abbrev pub pushed_of : List (Promised D) → List D
  pushed_of [] = []
  pushed_of (pushed d ∷ out) = d ∷ pushed_of out
  pushed_of (resolved d ∷ out) = pushed_of out
  pushed_of (rejected d ∷ out) = pushed_of out
  pushed_of (forgotten d ∷ out) = pushed_of out

  abbrev pub resolved_of : List (Promised D) → List D
  resolved_of [] = []
  resolved_of (pushed d ∷ out) = resolved_of out
  resolved_of (resolved d ∷ out) = d ∷ resolved_of out
  resolved_of (rejected d ∷ out) = resolved_of out
  resolved_of (forgotten d ∷ out) = resolved_of out

  abbrev pub rejected_of : List (Promised D) → List D
  rejected_of [] = []
  rejected_of (pushed d ∷ out) = rejected_of out
  rejected_of (resolved d ∷ out) = rejected_of out
  rejected_of (rejected d ∷ out) = d ∷ rejected_of out
  rejected_of (forgotten d ∷ out) = rejected_of out

  abbrev pub forgotten_of : List (Promised D) → List D
  forgotten_of [] = []
  forgotten_of (pushed d ∷ out) = forgotten_of out
  forgotten_of (resolved d ∷ out) = forgotten_of out
  forgotten_of (rejected d ∷ out) = forgotten_of out
  forgotten_of (forgotten d ∷ out) = d ∷ forgotten_of out

  -- What became of the promises, those that are resolved first.
  abbrev pub ended_of : List (Promised D) → List D
  ended_of out = resolved_of out ++ (rejected_of out ++ forgotten_of out)

  abbrev pub is_closed_by : List (Event D) → Bool
  is_closed_by [] = false
  is_closed_by (closed ∷ es) = true
  is_closed_by (saved d ∷ es) = is_closed_by es
  is_closed_by (answered b ∷ es) = is_closed_by es
  is_closed_by (ticked ∷ es) = is_closed_by es
  is_closed_by (discarded ∷ es) = is_closed_by es

  abbrev pub listed : Option D → List D
  listed none = []
  listed (some d) = d ∷ []

  -- The data whose promises are not settled.
  abbrev pub waiting : File D → List D
  waiting f = listed f.in_flight ++ entries f.pending

  unfoldable pending_of : Form D → Option (List D)
  pending_of fresh = none
  pending_of idle = some []
  pending_of (busy d q) = some q
  pending_of (between p q) = some (p ∷ q)

  unfoldable flight_of : Form D → Option D
  flight_of fresh = none
  flight_of idle = none
  flight_of (busy d q) = some d
  flight_of (between p q) = none

  unfoldable writing_of : Form D → Bool
  writing_of fresh = false
  writing_of idle = false
  writing_of (busy d q) = true
  writing_of (between p q) = true

  unfoldable ticks_of : Form D → Bool
  ticks_of fresh = false
  ticks_of idle = false
  ticks_of (busy d q) = false
  ticks_of (between p q) = true

  unfoldable state_of : Option ℕ → Bool → List D → Form D → File D
  unfolding pending_of flight_of writing_of ticks_of
  state_of fd linked c x = record {
    fd = fd;
    linked = linked;
    pending = pending_of x;
    writing = writing_of x;
    ticks = ticks_of x;
    in_flight = flight_of x;
    contents = c;
  }

  -- The file after a write that failed, or one that found it closed.
  unfoldable stopped : Bool → List D → Option (List D) → File D
  stopped linked c ps = record {
    fd = none;
    linked = linked;
    pending = ps;
    writing = true;
    ticks = false;
    in_flight = none;
    contents = c;
  }

  record Ran (f : File D) (es : List (Event D)) : Type 0 where
    in_order : waiting f ++ pushed_of (run f es).1 ≡ ended_of (run f es).1 ++ waiting (run f es).0
    on_disk : (run f es).0.contents ≡ f.contents ++ resolved_of (run f es).1

  still : (f : File D) → Ran f []
  unfolding run
  still f = record { in_order = append-nil (waiting f); on_disk = sym (append-nil f.contents) }

  pushed_of-rejected : (ds : List D) → pushed_of (map rejected ds ++ []) ≡ []
  pushed_of-rejected [] = refl
  pushed_of-rejected (d ∷ ds) = pushed_of-rejected ds

  resolved_of-rejected : (ds : List D) → resolved_of (map rejected ds ++ []) ≡ []
  resolved_of-rejected [] = refl
  resolved_of-rejected (d ∷ ds) = resolved_of-rejected ds

  rejected_of-rejected : (ds : List D) → rejected_of (map rejected ds ++ []) ≡ ds
  rejected_of-rejected [] = refl
  rejected_of-rejected (d ∷ ds) = ap (◌∷◌ d) (rejected_of-rejected ds)

  forgotten_of-rejected : (ds : List D) → forgotten_of (map rejected ds ++ []) ≡ []
  forgotten_of-rejected [] = refl
  forgotten_of-rejected (d ∷ ds) = forgotten_of-rejected ds

  -- Then nothing happens any more.
  run-stopped :
      (linked : Bool) (c : List D) (ps : Option (List D)) (es : List (Event D))
      → run (stopped linked c ps) es ≡ (stopped linked c ps, [])
  unfolding run step save close discard caught on_answer stopped
  run-stopped linked c ps [] = refl
  run-stopped linked c ps (saved d ∷ es) = rw (run-stopped linked c ps es) refl
  run-stopped linked c ps (answered b ∷ es) = rw (run-stopped linked c ps es) refl
  run-stopped linked c ps (ticked ∷ es) = rw (run-stopped linked c ps es) refl
  run-stopped linked c ps (closed ∷ es) = rw (run-stopped linked c ps es) refl
  run-stopped linked c ps (discarded ∷ es) = rw (run-stopped linked c ps es) refl

  fail-Ran :
      (n : ℕ) (linked : Bool) (c : List D) (d : D) (q : List D) (es : List (Event D))
      → Ran (state_of (some n) linked c (busy d q)) (answered false ∷ es)
  unfolding run step on_answer on_failed catch_error entries state_of pending_of flight_of
      writing_of ticks_of stopped
  fail-Ran n linked c d q es = record {
    in_order =
        rw
          (
            run-stopped linked c none es,
            pushed_of-rejected q,
            resolved_of-rejected q,
            rejected_of-rejected q,
            forgotten_of-rejected q,
          )
          (ap (◌∷◌ d) (sym (append-nil (q ++ []))));
    on_disk = rw (run-stopped linked c none es, resolved_of-rejected q) (sym (append-nil c));
  }

  -- A write that finds the file closed.
  forget-Ran :
      {f : File D} {e : Event D} {es : List (Event D)} (linked : Bool) (d : D) (q : List D)
      → step f e ≡ (stopped linked f.contents (some q), forgotten d ∷ [])
      → waiting f ≡ d ∷ q
      → Ran f (e ∷ es)
  unfolding run entries stopped
  forget-Ran {f} {e} {es} linked d q p w = record {
    in_order = rw (p, w, run-stopped linked f.contents (some q) es) (ap (◌∷◌ d) (append-nil q));
    on_disk = rw (p, run-stopped linked f.contents (some q) es) (sym (append-nil f.contents));
  }

  -- An event that settles nothing and makes no promise.
  carry :
      {f f' : File D} {e : Event D} {es : List (Event D)}
      → run f (e ∷ es) ≡ run f' es
      → waiting f ≡ waiting f'
      → f.contents ≡ f'.contents
      → Ran f' es
      → Ran f (e ∷ es)
  carry p w c r = record { in_order = rw (p, w) r.in_order; on_disk = rw (p, c) r.on_disk }

  form-Ran :
      (fd : Option ℕ) (linked : Bool) (c : List D) (x : Form D) (es : List (Event D))
      → Ran (state_of fd linked c x) es
  unfolding run step save write on_answer on_written on_failed catch_error entries close discard
      caught stopped state_of pending_of flight_of writing_of ticks_of
  form-Ran fd linked c x [] = still (state_of fd linked c x)
  form-Ran none linked c x (saved d ∷ es) = carry refl refl refl (form-Ran none linked c x es)
  form-Ran (some n) linked c fresh (saved d ∷ es) =
      let r = form-Ran (some n) linked c (busy d []) es in
      record { in_order = r.in_order; on_disk = r.on_disk }
  form-Ran (some n) linked c idle (saved d ∷ es) =
      let r = form-Ran (some n) linked c (busy d []) es in
      record { in_order = r.in_order; on_disk = r.on_disk }
  form-Ran (some n) linked c (busy d q) (saved d' ∷ es) =
      let r = form-Ran (some n) linked c (busy d (q ++ d' ∷ [])) es in
      record {
        in_order = sym (ap (◌∷◌ d) (append_assoc q (d' ∷ []) _)) ∙ r.in_order;
        on_disk = r.on_disk;
      }
  form-Ran (some n) linked c (between p q) (saved d' ∷ es) =
      let r = form-Ran (some n) linked c (between p (q ++ d' ∷ [])) es in
      record {
        in_order = sym (ap (◌∷◌ p) (append_assoc q (d' ∷ []) _)) ∙ r.in_order;
        on_disk = r.on_disk;
      }
  form-Ran fd linked c fresh (answered b ∷ es) =
      carry refl refl refl (form-Ran fd linked c fresh es)
  form-Ran fd linked c idle (answered b ∷ es) = carry refl refl refl (form-Ran fd linked c idle es)
  form-Ran fd linked c (between p q) (answered b ∷ es) =
      carry refl refl refl (form-Ran fd linked c (between p q) es)
  form-Ran fd linked c (busy d []) (answered true ∷ es) =
      let r = form-Ran fd linked (c ++ d ∷ []) idle es in
      record { in_order = ap (◌∷◌ d) r.in_order; on_disk = r.on_disk ∙ append_assoc c (d ∷ []) _ }
  form-Ran fd linked c (busy d (p ∷ q)) (answered true ∷ es) =
      let r = form-Ran fd linked (c ++ d ∷ []) (between p q) es in
      record { in_order = ap (◌∷◌ d) r.in_order; on_disk = r.on_disk ∙ append_assoc c (d ∷ []) _ }
  form-Ran none linked c (busy d q) (answered false ∷ es) = forget-Ran linked d q refl refl
  form-Ran (some n) linked c (busy d q) (answered false ∷ es) = fail-Ran n linked c d q es
  form-Ran fd linked c fresh (ticked ∷ es) = carry refl refl refl (form-Ran fd linked c fresh es)
  form-Ran fd linked c idle (ticked ∷ es) = carry refl refl refl (form-Ran fd linked c idle es)
  form-Ran fd linked c (busy d q) (ticked ∷ es) =
      carry refl refl refl (form-Ran fd linked c (busy d q) es)
  form-Ran none linked c (between p q) (ticked ∷ es) = forget-Ran linked p q refl refl
  form-Ran (some n) linked c (between p q) (ticked ∷ es) =
      carry refl refl refl (form-Ran (some n) linked c (busy p q) es)
  form-Ran none linked c x (closed ∷ es) = carry refl refl refl (form-Ran none linked c x es)
  form-Ran (some n) linked c x (closed ∷ es) = carry refl refl refl (form-Ran none linked c x es)
  form-Ran none linked c x (discarded ∷ es) = carry refl refl refl (form-Ran none linked c x es)
  form-Ran (some zero) linked c x (discarded ∷ es) =
      carry refl refl refl (form-Ran (some zero) linked c x es)
  form-Ran (some (suc n)) linked c x (discarded ∷ es) =
      carry refl refl refl (form-Ran (some (suc n)) false c x es)

  -- While the file is not closed, no promise is forgotten.
  form-kept :
      (n : ℕ) (linked : Bool) (c : List D) (x : Form D) (es : List (Event D))
      → is_closed_by es ≡ false
      → forgotten_of (run (state_of (some n) linked c x) es).1 ≡ []
  unfolding run step save write on_answer on_written on_failed catch_error entries close discard
      caught stopped state_of pending_of flight_of writing_of ticks_of
  form-kept n linked c x [] h = refl
  form-kept n linked c fresh (saved d ∷ es) h = form-kept n linked c (busy d []) es h
  form-kept n linked c idle (saved d ∷ es) h = form-kept n linked c (busy d []) es h
  form-kept n linked c (busy d q) (saved e ∷ es) h =
      form-kept n linked c (busy d (q ++ e ∷ [])) es h
  form-kept n linked c (between p q) (saved e ∷ es) h =
      form-kept n linked c (between p (q ++ e ∷ [])) es h
  form-kept n linked c fresh (answered b ∷ es) h = form-kept n linked c fresh es h
  form-kept n linked c idle (answered b ∷ es) h = form-kept n linked c idle es h
  form-kept n linked c (between p q) (answered b ∷ es) h = form-kept n linked c (between p q) es h
  form-kept n linked c (busy d []) (answered true ∷ es) h =
      form-kept n linked (c ++ d ∷ []) idle es h
  form-kept n linked c (busy d (p ∷ q)) (answered true ∷ es) h =
      form-kept n linked (c ++ d ∷ []) (between p q) es h
  form-kept n linked c (busy d q) (answered false ∷ es) h =
      rw (run-stopped linked c none es) (forgotten_of-rejected q)
  form-kept n linked c fresh (ticked ∷ es) h = form-kept n linked c fresh es h
  form-kept n linked c idle (ticked ∷ es) h = form-kept n linked c idle es h
  form-kept n linked c (busy d q) (ticked ∷ es) h = form-kept n linked c (busy d q) es h
  form-kept n linked c (between p q) (ticked ∷ es) h = form-kept n linked c (busy p q) es h
  form-kept n linked c x (closed ∷ es) h = cc
  form-kept zero linked c x (discarded ∷ es) h = form-kept zero linked c x es h
  form-kept (suc n) linked c x (discarded ∷ es) h = form-kept (suc n) false c x es h

  -- From its creation on, whatever is saved, however the writes are answered, and whenever the file is
  -- closed or discarded, as long as fs.closeSync and fs.unlinkSync do not throw: the data of the
  -- promises that save made are, in the order of the calls, those of the promises that are resolved,
  -- those of the rejected ones, those of the promises that an assert forgets, and those that wait; and
  -- the writes that were fulfilled are those of the resolved promises, in their order.
  pub run-in_turn :
      (n : ℕ) (es : List (Event D))
      → (pushed_of (run (create n) es).1
          ≡ ended_of (run (create n) es).1 ++ waiting (run (create n) es).0)
        × ((run (create n) es).0.contents ≡ resolved_of (run (create n) es).1)
  unfolding create state_of entries pending_of flight_of writing_of ticks_of
  run-in_turn n es = let r = form-Ran (some n) true [] fresh es in (r.in_order, r.on_disk)

  -- From its creation on, as long as close is not called, and fs.closeSync and fs.unlinkSync do not
  -- throw, no promise of save is forgotten.
  pub run-forgets_none :
      (n : ℕ) (es : List (Event D))
      → is_closed_by es ≡ false
      → forgotten_of (run (create n) es).1 ≡ []
  unfolding create state_of entries pending_of flight_of writing_of ticks_of
  run-forgets_none n es h = form-kept n true [] fresh es h
