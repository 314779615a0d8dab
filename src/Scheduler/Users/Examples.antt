-- ===== src/Scheduler/Users/Examples.antt =====
-- Two monitors that add users.
use text.Mathlib.TextEquality.{eq_iff}
use fisk.Base.{
  ◌↔◌, ◌<◌, ℕ, ◌≤◌, ◌≡◌, ◌≢◌, refl, String, true, some, List, [], ◌∷◌, arith, ℕ_discrete,
  String_discrete, take_out,
}
use fisk.OrderedMap.{get, set, delete}
use fisk.Scheduler.Users.{
  User, add_user, login, Users, Drawn, Event, message, read, written, start, begin, on_message,
  finish, updated, checked, drew, on_drawn, on_read, on_written, step, run, without_name,
}
use fisk.Scheduler.Users.Names.{times, in_flight}
use fisk.Scheduler.Users.Pending.{run-in_flight}
use fisk.Scheduler.Users.Accounts.{login-added, login_cookie-added}

abbrev hash : String → String → String
hash password salt = password

abbrev hmac : String → String → String
hmac cookie nonce = cookie

abbrev ip : ℕ → String
ip client = "10.0.0.1"

abbrev nonce : ℕ → String
nonce client = "nonce"

abbrev drawn : Drawn
drawn = record { expiration = 100; salt = "salt"; cookie = "cookie" }

abbrev user : String → User
user password = record {
  cookie = "cookie";
  cookie_ip = "10.0.0.1";
  cookie_expiration = 100;
  salt = "salt";
  hash = password;
}

abbrev both : List Event
both =
    message 1 1 (add_user "ann" "a")
    ∷ message 2 2 (add_user "bob" "b")
    ∷ read 1 true 1
    ∷ read 2 true 1
    ∷ drew 1 true drawn
    ∷ drew 2 true drawn
    ∷ written 1 true
    ∷ written 2 true
    ∷ []

-- Both read before either writes, so the user that is written first is lost.
lost_update : (run hash hmac ip nonce (start []) both).0.users ≡ some (("bob", user "b") ∷ [])
unfolding run step on_message begin on_read on_drawn checked on_written finish without_name updated
    get set delete take_out ℕ_discrete String_discrete
lost_update = refl

-- Ann logs in, and the users are read at the time 1.
abbrev log_in : List Event
log_in = message 7 3 (login "ann" "a" "") ∷ read 7 true 1 ∷ []

abbrev logging_in : Users
logging_in = (run hash hmac ip nonce (start (("ann", user "a") ∷ [])) log_in).0

run-in_flight_example :
    (in_flight "ann" (run hash hmac ip nonce (start []) both).0
      ≡ times "ann" (run hash hmac ip nonce (start []) both).0.pending)
    × (in_flight "ann" (run hash hmac ip nonce (start []) both).0 ≤ 1)
run-in_flight_example = run-in_flight hash hmac ip nonce [] both "ann"

not_empty : ◌≢◌ {A = String} "cookie" ""
not_empty = ground (arith, eq_iff "cookie" "")

login-added_example :
    (checked hash hmac ip nonce
        (login "ann" "a" "")
        2
        500
        (updated hash hmac ip nonce (add_user "ann" "a") 1 drawn [])
      ≡ true)
    ↔ (hash "a" "salt" ≡ hash "a" "salt")
login-added_example = login-added hash hmac ip nonce 1 2 500 "ann" "a" "a" drawn []

login_cookie-added_example :
    (checked hash hmac ip nonce
        (login "ann" "" "cookie")
        2
        50
        (updated hash hmac ip nonce (add_user "ann" "a") 1 drawn [])
      ≡ true)
    ↔ ((◌≢◌ {A = String} "cookie" "")
        × (ip 1 ≡ ip 2)
        × (50 < 100)
        × (hmac "cookie" (nonce 2) ≡ "cookie"))
login_cookie-added_example =
    login_cookie-added hash hmac ip nonce 1 2 50 "ann" "a" "" "cookie" drawn [] not_empty
