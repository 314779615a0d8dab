-- ===== src/Scheduler/Users/Checked.antt =====
-- What the operations of src/scheduler/fisk-scheduler.ts have read passed their tests.
use fisk.Base.{
  ℕ, ◌≡◌, sym, subst, ◌∙◌, ◌⊎◌, inl, inr, String, Bool, true, false, not, ◌&&◌, ◌||◌, some, List,
  [], ◌∷◌, arith, ℕ_discrete, String_discrete, Option-cases, Bool-cases, if_pos, if_neg, if-both,
  holds,
}
use fisk.OrderedMap.{OrderedMap, get, set, delete, has}
use fisk.OrderedMap.Laws.{get-set, get-delete}
use mathlib.Core.Option.{some-injective, none-ne-some}
use fisk.Scheduler.Users.{
  User, Reply, Kind, add_user, remove_user, login, Operation, new_operation, Users, Drawn, Event,
  message, read, drew, written, same, start, begin, on_message, finish, or_none, checked, updated,
  with_users, drawing, on_read, on_drawn, on_written, step, run,
}
use fisk.Scheduler.Users.Verified.{ByPassword, ByCookie, verify_sound}

module _ (hash : String → String → String) (hmac : String → String → String)
    (ip nonce : ℕ → String) where
  -- These users have the user, and a login of this connection passed the tests for it at some time.
  pub record Passed (users : OrderedMap String User) (client : ℕ) (name password mac : String)
      : Type 0 where
    pub user : User
    pub now : ℕ
    pub known : get String_discrete name users ≡ some user
    pub verified :
        ByPassword hash hmac ip nonce user password mac
        ⊎ ByCookie hash hmac ip nonce user client now mac

  checked-Passed :
      (users : OrderedMap String User) (client now : ℕ) (name password mac : String)
      → checked hash hmac ip nonce (login name password mac) client now users ≡ true
      → Passed users client name password mac
  unfolding checked
  checked-Passed users client now name password mac h =
      elim (Option-cases (get String_discrete name users)) [
        | inl absent ↦ absurd (let g = rw (absent, checked) at h in cc)
        | inr (u, known) ↦ record {
          user = u;
          now = now;
          known = known;
          verified =
              verify_sound hash hmac ip nonce u client now password mac (rw (known, checked) at h);
        }
      ]

  -- An operation that is a login and has read these users passed its tests.
  abbrev pub IsChecked : Operation → Type 0
  IsChecked op =
      (users : OrderedMap String User) (name password mac : String)
      → op.read_users ≡ some users
      → op.kind ≡ login name password mac
      → Passed users op.client name password mac

  abbrev pub AllChecked : OrderedMap ℕ Operation → Type 0
  AllChecked ops = (id : ℕ) (op : Operation) → get ℕ_discrete id ops ≡ some op → IsChecked op

  set-AllChecked :
      (ops : OrderedMap ℕ Operation) (id : ℕ) (op : Operation)
      → AllChecked ops
      → IsChecked op
      → AllChecked (set ℕ_discrete id op ops)
  set-AllChecked ops id op all new k x e = elim (ℕ_discrete id k) [
    | yes here ↦
        subst IsChecked
          (some-injective op x
            (sym (if_pos (ℕ_discrete id k) here _ _) ∙ sym (get-set ℕ_discrete id k op ops) ∙ e))
          new
    | no other ↦
        all k x
          (sym (if_neg (ℕ_discrete id k) other _ _) ∙ sym (get-set ℕ_discrete id k op ops) ∙ e)
  ]

  delete-AllChecked :
      (ops : OrderedMap ℕ Operation) (id : ℕ)
      → AllChecked ops
      → AllChecked (delete ℕ_discrete id ops)
  delete-AllChecked ops id all k x e = all k x (ground (arith, e, get-delete ℕ_discrete id k ops))

  new-IsChecked : (client : ℕ) (kind : Kind) → IsChecked (new_operation client kind)
  new-IsChecked client kind users name password mac r k = absurd (none-ne-some users r)

  abbrev Fine : Users × List (ℕ × Reply) → Type 0
  Fine r = AllChecked r.0.operations

  begin-Fine :
      (ops : OrderedMap ℕ Operation) (id client : ℕ) (kind : Kind)
      → AllChecked ops
      → AllChecked (set ℕ_discrete id (new_operation client kind) ops)
  begin-Fine ops id client kind w =
      set-AllChecked ops id (new_operation client kind) w (new-IsChecked client kind)

  on_message-Fine :
      (s : Users) (id client : ℕ) (kind : Kind)
      → AllChecked s.operations
      → Fine (on_message s id client kind)
  unfolding on_message begin
  on_message-Fine s id client (add_user name password) w =
      if-both Fine (same name "" || same password "") w (
        if-both Fine (holds String_discrete name s.pending) w
          (begin-Fine s.operations id client (add_user name password) w))
  on_message-Fine s id client (remove_user name) w =
      if-both Fine (not (has ℕ_discrete client s.sessions)) w (
        if-both Fine (same name "") w (
          if-both Fine (holds String_discrete name s.pending) w
            (begin-Fine s.operations id client (remove_user name) w)))
  on_message-Fine s id client (login name password mac) w =
      if-both Fine (same name "" || (same password "" && same mac "")) w
        (begin-Fine s.operations id client (login name password mac) w)

  and_second : (a b : Bool) → a && b ≡ true → b ≡ true
  and_second true b h = h
  and_second false b h = cc

  on_read-Fine :
      (s : Users) (id : ℕ) (good : Bool) (now : ℕ)
      → AllChecked s.operations
      → Fine (on_read hash hmac ip nonce s id good now)
  unfolding on_read finish
  on_read-Fine s id good now w = elim (Option-cases (get ℕ_discrete id s.operations)) [
    | inl absent ↦ rw (absent, on_read) w
    | inr (op, known) ↦ elim (Option-cases op.read_users) [
      | inr (m, e) ↦ rw (known, e, on_read) w
      | inl e ↦
          let users = or_none s.users in
          elim (Bool-cases (good && checked hash hmac ip nonce op.kind op.client now users)) [
            | inr refused ↦ rw (known, e, refused, on_read) (delete-AllChecked s.operations id w)
            | inl passes ↦
                rw (known, e, passes, on_read)
                  (set-AllChecked s.operations id (with_users op users) w
                    (λ m name password mac r k.
                      subst (λ x. Passed x op.client name password mac) (some-injective users m r)
                        (checked-Passed users op.client now name password mac (
                          subst (λ x. checked hash hmac ip nonce x op.client now users ≡ true) k
                            (and_second good _ passes)))))
          ]
    ]
  ]

  pub drawing-read :
      (op : Operation) (m : OrderedMap String User) → drawing op ≡ some m → op.read_users ≡ some m
  drawing-read op m e = elim (Option-cases op.writes) [
    | inl unwritten ↦ rw unwritten at e
    | inr (w, known) ↦ absurd (none-ne-some m (rw known at e))
  ]

  on_drawn-Fine :
      (s : Users) (id : ℕ) (good : Bool) (drawn : Drawn)
      → AllChecked s.operations
      → Fine (on_drawn hash hmac ip nonce s id good drawn)
  unfolding on_drawn finish
  on_drawn-Fine s id good drawn w = elim (Option-cases (get ℕ_discrete id s.operations)) [
    | inl absent ↦ rw (absent, on_drawn) w
    | inr (op, known) ↦ elim (Option-cases (drawing op)) [
      | inl e ↦ rw (known, e, on_drawn) w
      | inr (m, e) ↦
          rw (known, e, on_drawn)
            (if-both Fine good
              (set-AllChecked s.operations id
                (record op { writes = some (updated hash hmac ip nonce op.kind op.client drawn m) })
                w (w id op known))
              (delete-AllChecked s.operations id w))
    ]
  ]

  on_written-Fine :
      (s : Users) (id : ℕ) (good : Bool) → AllChecked s.operations → Fine (on_written s id good)
  unfolding on_written finish
  on_written-Fine s id good w = elim (Option-cases (get ℕ_discrete id s.operations)) [
    | inl absent ↦ rw (absent, on_written) w
    | inr (op, known) ↦ elim (Option-cases op.writes) [
      | inl e ↦ rw (known, e, on_written) w
      | inr (m, e) ↦
          rw (known, e, on_written)
            (if-both Fine good (delete-AllChecked s.operations id w)
              (delete-AllChecked s.operations id w))
    ]
  ]

  step-Fine : (s : Users) (e : Event) → AllChecked s.operations → Fine (step hash hmac ip nonce s e)
  unfolding step
  step-Fine s (message id client kind) w =
      if-both Fine (has ℕ_discrete id s.operations) w (on_message-Fine s id client kind w)
  step-Fine s (read id good now) w = on_read-Fine s id good now w
  step-Fine s (drew id good drawn) w = on_drawn-Fine s id good drawn w
  step-Fine s (written id good) w = on_written-Fine s id good w

  pub run-Fine :
      (s : Users) (es : List Event) → AllChecked s.operations → Fine (run hash hmac ip nonce s es)
  unfolding run
  run-Fine s [] w = w
  run-Fine s (e ∷ es) w = run-Fine (step hash hmac ip nonce s e).0 es (step-Fine s e w)

  pub start-AllChecked : (users : OrderedMap String User) → AllChecked (start users).operations
  unfolding get
  start-AllChecked users id op e = absurd (none-ne-some op e)
