-- ===== src/Scheduler/Users/Pending.antt =====
-- Operations that add or remove the same user never overlap.
use fisk.Base.{
  if-both, ℕ, ◌≤◌, ◌≡◌, refl, String, Bool, false, not, ◌&&◌, ◌||◌, none, some, List, [], ◌∷◌,
  arith, ℕ_discrete, String_discrete, Option-cases, Bool-cases, inl, inr, if◌then◌else◌, holds,
}
use fisk.OrderedMap.{OrderedMap, get, has}
use fisk.OrderedMap.Laws.{delete-IsDistinct}
use fisk.OrderedMap.Sums.{sum_values-delete}
use fisk.Scheduler.Users.{
  User, Kind, add_user, remove_user, login, Operation, new_operation, Users, Reply, Drawn, Event,
  message, read, written, same, held_name, without_name, begin, start, on_message, finish, on_read,
  on_drawn, drew, checked, updated, drawing, direct, or_none, on_written, step, run,
}
use fisk.Scheduler.Users.Names.{
  times, holds_name, in_flight, times-take_out, IsHeld, take-IsHeld, login-IsHeld, set-IsHeld,
}

-- The name of an operation is pending.
pending_name :
    (s : Users) (id : ℕ) (op : Operation) (n : String)
    → IsHeld s.pending s.operations
    → get ℕ_discrete id s.operations ≡ some op
    → held_name op.kind ≡ some n
    → 1 ≤ times n s.pending
pending_name s id op n w known e = ground (
  arith,
  sum_values-delete ℕ_discrete (holds_name n) id op s.operations w.distinct known,
  w.counts n,
  e,
)

finish-IsHeld :
    (s : Users) (id : ℕ) (op : Operation)
    → IsHeld s.pending s.operations
    → get ℕ_discrete id s.operations ≡ some op
    → IsHeld (finish s id op).pending (finish s id op).operations
unfolding finish without_name
finish-IsHeld s id op w known = elim (Option-cases (held_name op.kind)) [
  | inl e ↦ rw e (record {
    counts = λ name. ground (
      arith,
      sum_values-delete ℕ_discrete (holds_name name) id op s.operations w.distinct known,
      w.counts name,
      e,
    );
    once = w.once;
    distinct = delete-IsDistinct ℕ_discrete id s.operations w.distinct;
  })
  | inr (n, e) ↦
      let there = pending_name s id op n w known e in
      rw e (record {
        counts = λ name. ground (
          arith,
          sum_values-delete ℕ_discrete (holds_name name) id op s.operations w.distinct known,
          times-take_out name n s.pending there,
          w.counts name,
          e,
        );
        once = λ name. omega (arith, times-take_out name n s.pending there, w.once name);
        distinct = delete-IsDistinct ℕ_discrete id s.operations w.distinct;
      })
]

abbrev Held : Users → Type 0
Held s = IsHeld s.pending s.operations

on_written-Held : (s : Users) (id : ℕ) (good : Bool) → Held s → Held (on_written s id good).0
unfolding on_written
on_written-Held s id good w = elim (Option-cases (get ℕ_discrete id s.operations)) [
  | inl absent ↦ rw (absent, on_written) w
  | inr (op, known) ↦ elim (Option-cases op.writes) [
    | inl e ↦ rw (known, e, on_written) w
    | inr (m, e) ↦
        rw (known, e, on_written)
          (if-both (λ (r : Users × List (ℕ × Reply)). Held r.0) good
            (finish-IsHeld (record s { users = some m }) id op w known)
            (finish-IsHeld s id op w known))
  ]
]

-- A guard on pendingUsers.
unless_pending :
    (s : Users) (name : String) (x y : Users × List (ℕ × Reply))
    → Held x.0
    → (holds String_discrete name s.pending ≡ false → Held y.0)
    → Held (if holds String_discrete name s.pending then x else y).0
unless_pending s name x y h k = elim (Bool-cases (holds String_discrete name s.pending)) [
  | inl e ↦ rw e h
  | inr e ↦ rw e (k e)
]

on_message-Held :
    (s : Users) (id client : ℕ) (kind : Kind)
    → Held s
    → get ℕ_discrete id s.operations ≡ none
    → Held (on_message s id client kind).0
unfolding on_message begin
on_message-Held s id client (add_user name password) w new =
    if-both (λ (r : Users × List (ℕ × Reply)). Held r.0) (same name "" || same password "") w
      (unless_pending s name _ _ w (λ free.
        take-IsHeld s.pending s.operations id (new_operation client (add_user name password)) name w
          new refl free))
on_message-Held s id client (remove_user name) w new =
    if-both (λ (r : Users × List (ℕ × Reply)). Held r.0) (not (has ℕ_discrete client s.sessions)) w
      (if-both (λ (r : Users × List (ℕ × Reply)). Held r.0) (same name "") w
        (unless_pending s name _ _ w (λ free.
          take-IsHeld s.pending s.operations id (new_operation client (remove_user name)) name w new
            refl free)))
on_message-Held s id client (login name password mac) w new =
    if-both (λ (r : Users × List (ℕ × Reply)). Held r.0)
      (same name "" || (same password "" && same mac "")) w
      (login-IsHeld s.pending s.operations id (new_operation client (login name password mac)) w new
        refl)

module _ (hash : String → String → String) (hmac : String → String → String)
    (ip nonce : ℕ → String) where
  on_read-Held :
      (s : Users) (id : ℕ) (good : Bool) (now : ℕ)
      → Held s
      → Held (on_read hash hmac ip nonce s id good now).0
  unfolding on_read
  on_read-Held s id good now w = elim (Option-cases (get ℕ_discrete id s.operations)) [
    | inl absent ↦ rw (absent, on_read) w
    | inr (op, known) ↦ elim (Option-cases op.read_users) [
      | inr (m, e) ↦ rw (known, e, on_read) w
      | inl e ↦
          rw (known, e, on_read)
            (if-both (λ (r : Users × List (ℕ × Reply)). Held r.0)
              (good && checked hash hmac ip nonce op.kind op.client now (or_none s.users))
              (set-IsHeld s.pending s.operations id op (some (or_none s.users))
                (direct op.kind (or_none s.users)) w known)
              (finish-IsHeld s id op w known))
    ]
  ]

  on_drawn-Held :
      (s : Users) (id : ℕ) (good : Bool) (drawn : Drawn)
      → Held s
      → Held (on_drawn hash hmac ip nonce s id good drawn).0
  unfolding on_drawn
  on_drawn-Held s id good drawn w = elim (Option-cases (get ℕ_discrete id s.operations)) [
    | inl absent ↦ rw (absent, on_drawn) w
    | inr (op, known) ↦ elim (Option-cases (drawing op)) [
      | inl e ↦ rw (known, e, on_drawn) w
      | inr (m, e) ↦
          rw (known, e, on_drawn)
            (if-both (λ (r : Users × List (ℕ × Reply)). Held r.0) good
              (set-IsHeld s.pending s.operations id op op.read_users
                (some (updated hash hmac ip nonce op.kind op.client drawn m)) w known)
              (finish-IsHeld s id op w known))
    ]
  ]

  step-Held : (s : Users) (e : Event) → Held s → Held (step hash hmac ip nonce s e).0
  unfolding step
  step-Held s (message id client kind) w = elim (Option-cases (get ℕ_discrete id s.operations)) [
    | inl new ↦ rw new (on_message-Held s id client kind w new)
    | inr (op, known) ↦ rw known w
  ]
  step-Held s (read id good now) w = on_read-Held s id good now w
  step-Held s (drew id good drawn) w = on_drawn-Held s id good drawn w
  step-Held s (written id good) w = on_written-Held s id good w

  run-Held : (s : Users) (es : List Event) → Held s → Held (run hash hmac ip nonce s es).0
  unfolding run
  run-Held s [] w = w
  run-Held s (e ∷ es) w = run-Held (step hash hmac ip nonce s e).0 es (step-Held s e w)

  -- Whatever the monitors send, and however reads and writes of the database come between: of the
  -- operations in flight at most one adds or removes a user of this name, and the name is in
  -- pendingUsers exactly then.
  pub run-in_flight :
      (users : OrderedMap String User) (es : List Event) (name : String)
      → (in_flight name (run hash hmac ip nonce (start users) es).0
          ≡ times name (run hash hmac ip nonce (start users) es).0.pending)
        × (in_flight name (run hash hmac ip nonce (start users) es).0 ≤ 1)
  run-in_flight users es name =
      let w =
        run-Held (start users) es
          (record { counts = λ n. refl; once = λ n. omega arith; distinct = tt }) in
      (w.counts name, omega (arith, w.counts name, w.once name))
