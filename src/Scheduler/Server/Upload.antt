-- ===== src/Scheduler/Server/Upload.antt =====
-- The bytes of an upload: no more and no others reach the scheduler than were announced.
use fisk.Base.{
  ℕ, ◌+◌, ◌-◌, ◌≤◌, ◌<◌, String, ◌≡◌, refl, sym, ap, subst, inl, inr, true, false, Option, none,
  some, List, [], ◌∷◌, ◌++◌, arith, ℕ_discrete, ltb, ◌==◌, Bool-cases, Option-cases, length,
  is_empty,
}
use fisk.Scheduler.Server.{
  Json, Message, json_text, binary, Emitted, log, upload_environment, upload_data, refused,
  error_at_close, closed, is_text, text_of, on_json, on_message, on_messages,
}

abbrev pub number_of : Option ℕ → ℕ
number_of none = 0
number_of (some n) = n

-- The bytes that were announced, and those that came.
abbrev pub announced : List Emitted → ℕ
announced [] = 0
announced (upload_environment json ∷ out) = number_of json.bytes + announced out
announced (e ∷ out) = announced out

abbrev pub received : List Emitted → ℕ
received [] = 0
received (upload_data bytes last ∷ out) = length bytes + received out
received (e ∷ out) = received out

-- Each part is marked as the last one exactly when the bytes of the upload are complete with it;
-- `missing` bytes are missing at first.
abbrev pub IsMarked : ℕ → List Emitted → Type 0
IsMarked missing [] = Unit {0}
IsMarked missing (upload_environment json ∷ out) =
    (missing ≡ 0) × IsMarked (number_of json.bytes) out
IsMarked missing (upload_data bytes last ∷ out) =
    (0 < length bytes)
    × ((length bytes ≤ missing)
        × ((last ≡ (missing - length bytes == 0)) × IsMarked (missing - length bytes) out))
IsMarked missing (e ∷ out) = IsMarked missing out

announced-append : (xs ys : List Emitted) → announced (xs ++ ys) ≡ announced xs + announced ys
announced-append [] ys = omega arith
announced-append (upload_environment json ∷ xs) ys = omega (arith, announced-append xs ys)
announced-append (log json ∷ xs) ys = announced-append xs ys
announced-append (upload_data b l ∷ xs) ys = announced-append xs ys
announced-append (refused c ∷ xs) ys = announced-append xs ys
announced-append (error_at_close ∷ xs) ys = announced-append xs ys
announced-append (closed ∷ xs) ys = announced-append xs ys

received-append : (xs ys : List Emitted) → received (xs ++ ys) ≡ received xs + received ys
received-append [] ys = omega arith
received-append (upload_data b l ∷ xs) ys = omega (arith, received-append xs ys)
received-append (upload_environment json ∷ xs) ys = received-append xs ys
received-append (log json ∷ xs) ys = received-append xs ys
received-append (refused c ∷ xs) ys = received-append xs ys
received-append (error_at_close ∷ xs) ys = received-append xs ys
received-append (closed ∷ xs) ys = received-append xs ys

nonempty : (xs : List ℕ) → is_empty xs ≡ false → 0 < length xs
nonempty [] h = cc
nonempty (x ∷ xs) h = omega arith

module _ (parse : String → Option Json) where
  -- What one message does to the books.
  record Booked (remaining : ℕ) (r : ℕ × List Emitted) : Type 0 where
    same : remaining + announced r.1 ≡ received r.1 + r.0
    marked : (out : List Emitted) → IsMarked r.0 out → IsMarked remaining (r.1 ++ out)

  on_json-Booked : (json : Json) → Booked 0 (on_json parse 0 json)
  unfolding on_json
  on_json-Booked json = elim (Bool-cases (is_text (text_of json.type) "log")) [
    | inl l ↦ rw (l) (record { same = refl; marked = λ out w. w })
    | inr l ↦ elim (Bool-cases (is_text (text_of json.type) "uploadEnvironment")) [
      | inr t ↦ rw (l, t) (record { same = refl; marked = λ out w. w })
      | inl t ↦ elim (Bool-cases json.has_hash) [
        | inr h ↦ rw (l, t, h) (record { same = refl; marked = λ out w. w })
        | inl h ↦ elim (Option-cases json.bytes) [
          | inl b ↦ rw (l, t, h, b) (record { same = refl; marked = λ out w. w })
          | inr (n, b) ↦
              let e : number_of json.bytes ≡ n = ap number_of b in
              rw (l, t, h, b)
                (record {
                  same = omega (arith, e);
                  marked = λ out w. (refl, subst (λ k. IsMarked k out) (sym e) w);
                })
        ]
      ]
    ]
  ]

  on_message-Booked :
      (remaining : ℕ) (m : Message) → Booked remaining (on_message parse remaining m)
  unfolding on_message
  on_message-Booked remaining (json_text msg) = elim (ℕ_discrete remaining 0) [
    | no busy ↦
        let b : remaining == 0 ≡ false = ground (arith, busy) in
        rw (b) (record { same = omega arith; marked = λ out w. w })
    | yes free ↦
        let b : remaining == 0 ≡ true = ground (arith, free) in
        elim (Option-cases (parse msg)) [
          | inl bad ↦ rw (b, bad) (record { same = omega arith; marked = λ out w. w })
          | inr (json, good) ↦
              rw (b, good)
                (subst (λ n. Booked n (on_json parse n json)) (sym free) (on_json-Booked json))
        ]
  ]
  on_message-Booked remaining (binary msg) = elim (Bool-cases (is_empty msg)) [
    | inl e ↦ rw (e) (record { same = omega arith; marked = λ out w. w })
    | inr e ↦ elim (Bool-cases (remaining == 0)) [
      | inl z ↦ rw (e, z) (record { same = omega arith; marked = λ out w. w })
      | inr z ↦ elim (Bool-cases (ltb remaining (length msg))) [
        | inl long ↦ rw (e, z, long) (record { same = omega arith; marked = λ out w. w })
        | inr fits ↦
            let within : length msg ≤ remaining = ground (arith, fits) in
            rw (e, z, fits)
              (record {
                same = omega (arith, within);
                marked = λ out w. (nonempty msg e, (within, (refl, w)));
              })
      ]
    ]
  ]

  -- Whatever a client sends: the bytes that reach the scheduler and those that are still missing are
  -- together as many as were announced; nothing is announced while bytes are missing; and every part has
  -- bytes, no more than are missing, and is marked as the last one exactly when none are missing then.
  pub on_messages-IsMarked :
      (remaining : ℕ) (ms : List Message)
      → (remaining + announced (on_messages parse remaining ms).1
          ≡ received (on_messages parse remaining ms).1 + (on_messages parse remaining ms).0)
        × IsMarked remaining (on_messages parse remaining ms).1
  unfolding on_messages
  on_messages-IsMarked remaining [] = (omega arith, tt)
  on_messages-IsMarked remaining (m ∷ ms) =
      let b = on_message-Booked remaining m in
      let r = on_message parse remaining m in
      let (sum, w) = on_messages-IsMarked r.0 ms in
      let out = (on_messages parse r.0 ms).1 in
      (
        omega (arith, b.same, sum, announced-append r.1 out, received-append r.1 out),
        b.marked out w,
      )
