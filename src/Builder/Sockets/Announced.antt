-- ===== src/Builder/Sockets/Announced.antt =====
-- The bytes that a builder gets are the bytes that were announced.
use fisk.Base.{
  ℕ, ◌<◌, String, ◌≡◌, refl, sym, subst, inl, inr, ite, true, false, Option, List, [], ◌∷◌, ◌++◌,
  arith, ℕ_discrete, ◌==◌, if◌then◌else◌, Bool-cases, Option-cases, String_discrete, length,
  is_empty,
}
use fisk.Builder.Sockets.{
  Json, Message, json_text, binary, other_object, Emitted, job, typed, data_of,
  on_scheduler_message, on_scheduler_messages,
}

-- Data come as announced, all at once, and nothing else is announced until then; `missing` bytes are
-- missing at first.
abbrev pub IsAnnounced : ℕ → List Emitted → Type 0
IsAnnounced missing [] = Unit {0}
IsAnnounced missing (typed json ∷ out) = (missing ≡ 0) × IsAnnounced json.bytes out
IsAnnounced missing (job json ∷ out) = (missing ≡ 0) × IsAnnounced json.bytes out
IsAnnounced missing (data_of bytes ∷ out) =
    (0 < length bytes) × ((length bytes ≡ missing) × IsAnnounced 0 out)
IsAnnounced missing (e ∷ out) = IsAnnounced missing out

nonempty : (xs : List ℕ) → is_empty xs ≡ false → 0 < length xs
nonempty [] h = cc
nonempty (x ∷ xs) h = omega arith

module _ (parse : String → Option Json) where
  abbrev After : ℕ → ℕ × List Emitted → Type 0
  After remaining r =
      (out : List Emitted) → IsAnnounced r.0 out → IsAnnounced remaining (r.1 ++ out)

  json-After : (json : Json) → After 0 (if json.bytes == 0 then 0 else json.bytes, typed json ∷ [])
  json-After json out w = elim (ℕ_discrete json.bytes 0) [
    | yes z ↦
        let b : json.bytes == 0 ≡ true = ground (arith, z) in
        (refl, subst (λ n. IsAnnounced n out) (sym z) (rw (b) at w))
    | no n ↦ let b : json.bytes == 0 ≡ false = ground (arith, n) in (refl, rw (b) at w)
  ]

  message-After :
      (remaining : ℕ) (m : Message) → After remaining (on_scheduler_message parse remaining m)
  unfolding on_scheduler_message
  message-After remaining other_object = λ out w. w
  message-After remaining (json_text msg) = elim (ℕ_discrete remaining 0) [
    | no busy ↦ let b : remaining == 0 ≡ false = ground (arith, busy) in rw (b) (λ out w. w)
    | yes free ↦
        let b : remaining == 0 ≡ true = ground (arith, free) in
        elim (Option-cases (parse msg)) [
          | inl bad ↦ rw (b, bad) (λ out w. w)
          | inr (json, good) ↦ elim (Bool-cases (ite (String_discrete json.type "") true false)) [
            | inl t ↦ rw (b, good, t) (λ out w. w)
            | inr t ↦
                rw (b, good, t)
                  (subst (λ n. After n (if json.bytes == 0 then n else json.bytes, typed json ∷ []))
                    (sym free) (json-After json))
          ]
        ]
  ]
  message-After remaining (binary msg) = elim (Bool-cases (is_empty msg)) [
    | inl e ↦ rw (e) (λ out w. w)
    | inr e ↦ elim (Bool-cases (remaining == 0)) [
      | inl z ↦ rw (e, z) (λ out w. w)
      | inr z ↦ elim (Bool-cases (length msg == remaining)) [
        | inr differs ↦ rw (e, z, differs) (λ out w. w)
        | inl same ↦ rw (e, z, same) (λ out w. (nonempty msg e, (ground (arith, same), w)))
      ]
    ]
  ]

  -- Whatever the scheduler sends to a builder: data are emitted only when JSON announced bytes, once,
  -- and as many as it announced; and no JSON is taken until they are there.
  pub on_scheduler_messages-IsAnnounced :
      (remaining : ℕ) (ms : List Message)
      → IsAnnounced remaining (on_scheduler_messages parse remaining ms)
  unfolding on_scheduler_messages
  on_scheduler_messages-IsAnnounced remaining [] = tt
  on_scheduler_messages-IsAnnounced remaining (m ∷ ms) =
      let r = on_scheduler_message parse remaining m in
      message-After remaining m (on_scheduler_messages parse r.0 ms)
        (on_scheduler_messages-IsAnnounced r.0 ms)
