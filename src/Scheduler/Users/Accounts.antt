-- ===== src/Scheduler/Users/Accounts.antt =====
-- The user that was added logs in.
use fisk.Base.{ℕ, ◌<◌, ◌≡◌, ◌≢◌, ◌↔◌, refl, sym, ◌∙◌, inl, inr, String, true, String_discrete}
use fisk.OrderedMap.{OrderedMap}
use fisk.OrderedMap.Laws.{get-set_self}
use fisk.Scheduler.Users.{User, add_user, login, Drawn, verify, checked, updated}
use fisk.Scheduler.Users.Verified.{verify_sound, verify-password, verify-cookie}

module _ (hash : String → String → String) (hmac : String → String → String)
    (ip nonce : ℕ → String) where
  -- The user that addUser adds.
  abbrev added : ℕ → String → Drawn → User
  added client password drawn = record {
    cookie = drawn.cookie;
    cookie_ip = ip client;
    cookie_expiration = drawn.expiration;
    salt = drawn.salt;
    hash = hash password drawn.salt;
  }

  checked-added :
      (client other now : ℕ) (name password given mac : String) (drawn : Drawn)
      (users : OrderedMap String User)
      → checked hash hmac ip nonce
          (login name given mac)
          other
          now
          (updated hash hmac ip nonce (add_user name password) client drawn users)
        ≡ verify hash hmac ip nonce (added client password drawn) other now given mac
  unfolding checked updated
  checked-added client other now name password given mac drawn users =
      rw (get-set_self String_discrete name (added client password drawn) users, checked) refl

  -- When addUser has written a user, a login with a password, from any connection at any time, finds
  -- the user and passes exactly when the hash of the password with the salt that was drawn is that of
  -- the password that was added.
  pub login-added :
      (client other now : ℕ) (name password given : String) (drawn : Drawn)
      (users : OrderedMap String User)
      → (checked hash hmac ip nonce
            (login name given "")
            other
            now
            (updated hash hmac ip nonce (add_user name password) client drawn users)
          ≡ true)
        ↔ (hash password drawn.salt ≡ hash given drawn.salt)
  login-added client other now name password given drawn users =
      let u = added client password drawn in
      let e = checked-added client other now name password given "" drawn users in
      (
        (λ h. elim (verify_sound hash hmac ip nonce u other now given "" (sym e ∙ h)) [
          | inl w ↦ w.its_hash
          | inr w ↦ absurd (w.has_mac refl)
        ]),
        (λ h.
            e
            ∙ verify-password hash hmac ip nonce u other now given ""
                (record { no_mac = refl; its_hash = h })),
      )

  -- When addUser has written a user, a login with an hmac that is not empty finds the user and passes
  -- exactly when the cookie that was drawn is not empty, the connection has the address of the one that
  -- added the user, it is before the time of expiration, and the hmac is that of the cookie with the
  -- nonce of the connection.
  pub login_cookie-added :
      (client other now : ℕ) (name password given mac : String) (drawn : Drawn)
      (users : OrderedMap String User)
      → mac ≢ ""
      → (checked hash hmac ip nonce
            (login name given mac)
            other
            now
            (updated hash hmac ip nonce (add_user name password) client drawn users)
          ≡ true)
        ↔ ((drawn.cookie ≢ "")
            × (ip client ≡ ip other)
            × (now < drawn.expiration)
            × (hmac drawn.cookie (nonce other) ≡ mac))
  login_cookie-added client other now name password given mac drawn users n =
      let u = added client password drawn in
      let e = checked-added client other now name password given mac drawn users in
      (
        (λ h. elim (verify_sound hash hmac ip nonce u other now given mac (sym e ∙ h)) [
          | inl w ↦ absurd (n w.no_mac)
          | inr w ↦ (w.its_cookie, w.its_ip, w.early, w.its_mac)
        ]),
        (λ (c, i, t, m).
            e
            ∙ verify-cookie hash hmac ip nonce u other now given mac
                (record { has_mac = n; its_cookie = c; its_ip = i; early = t; its_mac = m })),
      )
