-- ===== src/Scheduler/Users/Verified.antt =====
-- The tests of a login in src/scheduler/fisk-scheduler.ts, as equations.
use fisk.Base.{
  ℕ, ◌<◌, ◌≡◌, ◌≢◌, ◌⊎◌, inl, inr, refl, String, Bool, true, false, not, ◌&&◌, String_discrete,
  if_pos, if_neg, ltb, ltb→lt, lt→ltb,
}
use fisk.Scheduler.Users.{User, same, verify}

pub same_refl : (a : String) → same a a ≡ true
same_refl a = if_pos (String_discrete a a) refl true false

pub same_other : (a b : String) → a ≢ b → same a b ≡ false
same_other a b n = if_neg (String_discrete a b) n true false

pub same_sound : (a b : String) → same a b ≡ true → a ≡ b
same_sound a b h = elim (String_discrete a b) [
  | yes e ↦ e
  | no n ↦ absurd (let g = rw (same_other a b n) at h in cc)
]

all_four :
    (a b c d : Bool) → a && b && c && d ≡ true → (a ≡ true) × (b ≡ true) × (c ≡ true) × (d ≡ true)
all_four true true true true h = (refl, refl, refl, refl)
all_four true true true false h = cc
all_four true true false d h = cc
all_four true false c d h = cc
all_four false b c d h = cc

not_same : (a b : String) → not (same a b) ≡ true → a ≢ b
not_same a b h e = let g = rw (e, same_refl b) at h in cc

module _ (hash : String → String → String) (hmac : String → String → String)
    (ip nonce : ℕ → String) where
  -- A login with the password of the user.
  pub record ByPassword (u : User) (password mac : String) : Type 0 where
    pub no_mac : mac ≡ ""
    pub its_hash : u.hash ≡ hash password u.salt

  -- A login with the cookie of the user, from the address that has it, before it expires.
  pub record ByCookie (u : User) (client now : ℕ) (mac : String) : Type 0 where
    pub has_mac : mac ≢ ""
    pub its_cookie : u.cookie ≢ ""
    pub its_ip : u.cookie_ip ≡ ip client
    pub early : now < u.cookie_expiration
    pub its_mac : hmac u.cookie (nonce client) ≡ mac

  pub verify_sound :
      (u : User) (client now : ℕ) (password mac : String)
      → verify hash hmac ip nonce u client now password mac ≡ true
      → ByPassword u password mac ⊎ ByCookie u client now mac
  unfolding verify
  verify_sound u client now password mac h = elim (String_discrete mac "") [
    | yes e ↦
        let g = rw (e, same_refl "") at h in
        inl (record { no_mac = e; its_hash = same_sound u.hash (hash password u.salt) g })
    | no n ↦
        let g : not (same u.cookie "")
              && same u.cookie_ip (ip client)
              && ltb now u.cookie_expiration
              && same (hmac u.cookie (nonce client)) mac
            ≡ true =
          rw (same_other mac "" n) at h in
        cookie g n
  ]
    where
      cookie :
          not (same u.cookie "")
              && same u.cookie_ip (ip client)
              && ltb now u.cookie_expiration
              && same (hmac u.cookie (nonce client)) mac
            ≡ true
          → mac ≢ ""
          → ByPassword u password mac ⊎ ByCookie u client now mac
      cookie g n =
          let (first, second, third, fourth) =
            all_four (not (same u.cookie "")) (same u.cookie_ip (ip client))
              (ltb now u.cookie_expiration) (same (hmac u.cookie (nonce client)) mac) g in
          inr (record {
            has_mac = n;
            its_cookie = not_same u.cookie "" first;
            its_ip = same_sound u.cookie_ip (ip client) second;
            early = ltb→lt now u.cookie_expiration third;
            its_mac = same_sound (hmac u.cookie (nonce client)) mac fourth;
          })

  pub verify-password :
      (u : User) (client now : ℕ) (password mac : String)
      → ByPassword u password mac
      → verify hash hmac ip nonce u client now password mac ≡ true
  unfolding verify
  verify-password u client now password mac w =
      rw (w.no_mac, same_refl "", w.its_hash) (same_refl (hash password u.salt))

  pub verify-cookie :
      (u : User) (client now : ℕ) (password mac : String)
      → ByCookie u client now mac
      → verify hash hmac ip nonce u client now password mac ≡ true
  unfolding verify
  verify-cookie u client now password mac w =
      rw
        (
          same_other mac "" w.has_mac,
          same_other u.cookie "" w.its_cookie,
          w.its_ip,
          same_refl (ip client),
          lt→ltb now u.cookie_expiration w.early,
          w.its_mac,
          same_refl mac,
        )
        refl
