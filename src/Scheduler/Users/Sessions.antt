-- ===== src/Scheduler/Users/Sessions.antt =====
-- How the connection of a monitor gets a user.
use fisk.Base.{ℕ, ◌≡◌, String, true, some, ℕ_discrete}
use fisk.OrderedMap.{OrderedMap, get}
use fisk.Scheduler.Users.{User, login, Operation, Users, Drawn, Event, drew}
use fisk.Scheduler.Users.Checked.{Passed}

module _ (hash : String → String → String) (hmac : String → String → String)
    (ip nonce : ℕ → String) where
  -- The event ends the awaits of a login of this connection as this user, which has passed its tests
  -- for the users that it has read.
  pub record LoggedIn (s : Users) (e : Event) (client : ℕ) (name : String) : Type 0 where
    pub id : ℕ
    pub drawn : Drawn
    pub op : Operation
    pub password : String
    pub mac : String
    pub users : OrderedMap String User
    pub draws : e ≡ drew id true drawn
    pub operation : get ℕ_discrete id s.operations ≡ some op
    pub its_client : op.client ≡ client
    pub its_kind : op.kind ≡ login name password mac
    pub has_read : op.read_users ≡ some users
    pub passed : Passed hash hmac ip nonce users client name password mac

  abbrev Kept : Users → Users → Type 0
  Kept s s' =
      (client : ℕ) (name : String)
      → get ℕ_discrete client s'.sessions ≡ some name
      → get ℕ_discrete client s.sessions ≡ some name
