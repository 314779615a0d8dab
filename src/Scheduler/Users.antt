-- ===== src/Scheduler/Users.antt =====
-- src/scheduler/fisk-scheduler.ts: the accounts of the monitors' users. A message that reads and
-- writes the database is an operation with an identity: it reads all users, waits for randomBytes and
-- pbkdf2, and writes them all, and other messages may come between. That a password is compared when
-- the users are read makes no difference: no other step changes what this operation has read. `hash` is pbkdf2 of a password and a salt and `hmac` that of a
-- cookie and the nonce of a connection, in base64; `ip` and `nonce` are those of a connection. What
-- randomBytes and Date.now answer are arguments. No name is a property of Object.prototype.
pub mod Verified
pub mod Checked
pub mod Sessions
pub mod Names
pub mod Pending
pub mod Accounts
mod Examples
use fisk.Base.{
  ℕ, String, ite, Bool, true, false, not, ◌&&◌, ◌||◌, Option, none, some, List, [], ◌∷◌, ◌++◌,
  ℕ_discrete, if◌then◌else◌, String_discrete, holds, take_out, ltb,
}
use fisk.OrderedMap.{OrderedMap, get, set, delete, has}

pub record User : Type 0 where
  pub cookie : String
  pub cookie_ip : String
  pub cookie_expiration : ℕ
  pub salt : String
  pub hash : String

-- addUser, removeUser, and login with a password or an hmac.
pub data Kind : Type 0 where
  add_user : String → String → Kind
  remove_user : String → Kind
  login : String → String → String → Kind

-- `read_users` has the users that were read, `writes` those to write.
pub record Operation : Type 0 where
  pub client : ℕ
  pub kind : Kind
  pub read_users : Option (OrderedMap String User)
  pub writes : Option (OrderedMap String User)

-- `users` is what the database has, `pending` is pendingUsers, and `sessions` the variable `user` of
-- each connection.
pub record Users : Type 0 where
  pub users : Option (OrderedMap String User)
  pub pending : List String
  pub sessions : OrderedMap ℕ String
  pub operations : OrderedMap ℕ Operation

pub data Reply : Type 0 where
  unauthenticated bad_message busy failed : Reply
  removed : String → Reply
  welcome : String → String → Reply

-- What randomBytes and Date.now give to an operation that has read the users.
pub record Drawn : Type 0 where
  pub expiration : ℕ
  pub salt : String
  pub cookie : String

-- db.get is settled, with the time; the awaits behind it are settled; db.set is settled.
pub data Event : Type 0 where
  message : ℕ → ℕ → Kind → Event
  read : ℕ → Bool → ℕ → Event
  drew : ℕ → Bool → Drawn → Event
  written : ℕ → Bool → Event

abbrev pub same : String → String → Bool
same a b = ite (String_discrete a b) true false

-- The name that an operation keeps in pendingUsers.
abbrev pub held_name : Kind → Option String
held_name (add_user name password) = some name
held_name (remove_user name) = some name
held_name (login name password mac) = none

abbrev pub with_name : Option String → List String → List String
with_name none pending = pending
with_name (some name) pending = pending ++ name ∷ []

unfoldable pub without_name : Option String → List String → List String
without_name none pending = pending
without_name (some name) pending = take_out String_discrete name pending

abbrev pub start : OrderedMap String User → Users
start users = record { users = some users; pending = []; sessions = []; operations = [] }

-- An operation that has not read the users.
abbrev pub new_operation : ℕ → Kind → Operation
new_operation client kind = record {
  client = client;
  kind = kind;
  read_users = none;
  writes = none;
}

unfoldable pub begin : Users → ℕ → ℕ → Kind → Users
begin s id client kind = record s {
  pending = with_name (held_name kind) s.pending;
  operations = set ℕ_discrete id (new_operation client kind) s.operations;
}

-- The handler of a message, up to db.get.
unfoldable pub on_message : Users → ℕ → ℕ → Kind → Users × List (ℕ × Reply)
unfolding begin
on_message s id client (add_user name password) =
    if same name "" || same password ""
    then (s, (client, bad_message) ∷ [])
    else if holds String_discrete name s.pending
    then (s, (client, busy) ∷ [])
    else (begin s id client (add_user name password), [])
on_message s id client (remove_user name) =
    if not (has ℕ_discrete client s.sessions)
    then (s, (client, unauthenticated) ∷ [])
    else if same name ""
    then (s, (client, bad_message) ∷ [])
    else if holds String_discrete name s.pending
    then (s, (client, busy) ∷ [])
    else (begin s id client (remove_user name), [])
on_message s id client (login name password mac) =
    let s' = record s { sessions = delete ℕ_discrete client s.sessions } in
    if same name "" || (same password "" && same mac "")
    then (s', (client, bad_message) ∷ [])
    else (begin s' id client (login name password mac), [])

-- The end of an operation.
unfoldable pub finish : Users → ℕ → Operation → Users
unfolding without_name
finish s id op = record s {
  pending = without_name (held_name op.kind) s.pending;
  operations = delete ℕ_discrete id s.operations;
}

abbrev pub or_none : Option (OrderedMap String User) → OrderedMap String User
or_none none = []
or_none (some m) = m

-- `user = message.user`
abbrev pub session_of : Kind → ℕ → OrderedMap ℕ String → OrderedMap ℕ String
session_of (add_user name password) client m = m
session_of (remove_user name) client m = m
session_of (login name password mac) client m = set ℕ_discrete client name m

-- removeUser writes at once.
abbrev pub direct : Kind → OrderedMap String User → Option (OrderedMap String User)
direct (add_user name password) m = none
direct (remove_user name) m = some (delete String_discrete name m)
direct (login name password mac) m = none

abbrev pub with_users : Operation → OrderedMap String User → Operation
with_users op m = record op { read_users = some m; writes = direct op.kind m }

-- The users that were read, while the operation waits for what it draws.
abbrev pub drawing : Operation → Option (OrderedMap String User)
drawing op = elim op.writes [ some m ↦ none | none ↦ op.read_users ]

-- The answer to an operation that has written these users.
abbrev pub answer : Kind → OrderedMap String User → Reply
answer (remove_user name) m = removed name
answer (add_user name password) m =
    welcome name (elim (get String_discrete name m) [ none ↦ "" | some u ↦ u.cookie ])
answer (login name password mac) m =
    welcome name (elim (get String_discrete name m) [ none ↦ "" | some u ↦ u.cookie ])

-- db.set of an operation is settled.
unfoldable pub on_written : Users → ℕ → Bool → Users × List (ℕ × Reply)
unfolding finish
on_written s id good = elim (get ℕ_discrete id s.operations) [
  | none ↦ (s, [])
  | some op ↦ elim op.writes [
    | none ↦ (s, [])
    | some m ↦
        if good
        then (finish (record s { users = some m }) id op, (op.client, answer op.kind m) ∷ [])
        else (finish s id op, (op.client, failed) ∷ [])
  ]
]

module _ (hash : String → String → String) (hmac : String → String → String)
    (ip nonce : ℕ → String) where
  -- The tests of a login.
  unfoldable pub verify : User → ℕ → ℕ → String → String → Bool
  verify u client now password mac =
      if same mac ""
      then same u.hash (hash password u.salt)
      else not (same u.cookie "")
        && same u.cookie_ip (ip client)
        && ltb now u.cookie_expiration
        && same (hmac u.cookie (nonce client)) mac

  -- Whether an operation goes on with the users that it has read; when it does not, it throws.
  unfoldable pub checked : Kind → ℕ → ℕ → OrderedMap String User → Bool
  unfolding verify
  checked (add_user name password) client now users = not (has String_discrete name users)
  checked (remove_user name) client now users = has String_discrete name users
  checked (login name password mac) client now users = elim (get String_discrete name users) [
    | none ↦ false
    | some u ↦ verify u client now password mac
  ]

  -- The users that an operation writes.
  unfoldable pub updated : Kind → ℕ → Drawn → OrderedMap String User → OrderedMap String User
  updated (add_user name password) client drawn users =
      set String_discrete name
        (record {
          cookie = drawn.cookie;
          cookie_ip = ip client;
          cookie_expiration = drawn.expiration;
          salt = drawn.salt;
          hash = hash password drawn.salt;
        })
        users
  updated (remove_user name) client drawn users = delete String_discrete name users
  updated (login name password mac) client drawn users = elim (get String_discrete name users) [
    | none ↦ users
    | some u ↦
        set String_discrete name
          (record u {
            cookie = drawn.cookie;
            cookie_ip = ip client;
            cookie_expiration = drawn.expiration;
          })
          users
  ]

  -- db.get of an operation is settled.
  unfoldable pub on_read : Users → ℕ → Bool → ℕ → Users × List (ℕ × Reply)
  unfolding checked finish
  on_read s id good now = elim (get ℕ_discrete id s.operations) [
    | none ↦ (s, [])
    | some op ↦ elim op.read_users [
      | some m ↦ (s, [])
      | none ↦
          if good && checked op.kind op.client now (or_none s.users)
          then (
            record s {
              operations = set ℕ_discrete id (with_users op (or_none s.users)) s.operations;
            },
            [],
          )
          else (finish s id op, (op.client, failed) ∷ [])
    ]
  ]

  -- What an operation waits for between db.get and db.set is there.
  unfoldable pub on_drawn : Users → ℕ → Bool → Drawn → Users × List (ℕ × Reply)
  unfolding updated finish
  on_drawn s id good drawn = elim (get ℕ_discrete id s.operations) [
    | none ↦ (s, [])
    | some op ↦ elim (drawing op) [
      | none ↦ (s, [])
      | some m ↦
          if good
          then (
            record s {
              sessions = session_of op.kind op.client s.sessions;
              operations =
                  set ℕ_discrete id
                    (record op { writes = some (updated op.kind op.client drawn m) }) s.operations;
            },
            [],
          )
          else (finish s id op, (op.client, failed) ∷ [])
    ]
  ]

  -- A message has an identity that no operation has yet.
  unfoldable pub step : Users → Event → Users × List (ℕ × Reply)
  unfolding on_message on_read on_drawn on_written
  step s (message id client kind) =
      if has ℕ_discrete id s.operations then (s, []) else on_message s id client kind
  step s (read id good now) = on_read s id good now
  step s (drew id good drawn) = on_drawn s id good drawn
  step s (written id good) = on_written s id good

  unfoldable pub run : Users → List Event → Users × List (ℕ × Reply)
  unfolding step
  run s [] = (s, [])
  run s (e ∷ es) = let (s', out) = step s e in let (s'', out') = run s' es in (s'', out ++ out')
