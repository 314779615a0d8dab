-- ===== src/Daemon/Compile/Messages.antt =====
-- The parts of `_onData` of src/daemon/Compile.ts, which are given what the loop does next: they do
-- with the chunks what the protocol says of their bytes, if the loop does.
use fisk.Base.{
  ℕ, suc, ◌-◌, ◌≡◌, refl, sym, ap, subst, ◌∙◌, inl, inr, Bool, true, false, ◌||◌, Option, List, ◌∷◌,
  arith, ltb, ◌==◌, if◌then◌else◌, Bool-cases, Option-cases, length, take, drop, ok, length-drop,
  [],
}
use fisk.Daemon.Constants
use fisk.Daemon.ClientBuffer.{ClientBuffer, read}
use fisk.Daemon.ClientBuffer.Contents.{contents, IsValid, available-eq-length}
use fisk.Daemon.ClientBuffer.Stream.{read-Takes}
use fisk.Daemon.Compile.{
  Compile, Done, Emitted, slot, message, is_slot, read_uint32_be, take_message, on_json, on_code,
  then_emit,
}
use fisk.Daemon.Compile.Frames.{Left, left, emitting, parsed, body, frame}

-- The decoder is where the protocol is: the same was emitted, the same bytes are left.
pub record Matches {J : Type 0} (pid : ℕ) (r : Done J) (l : Left J) : Type 0 where
  pub same_pid : r.0.pid ≡ pid
  pub same_length : r.0.message_length ≡ l.message_length
  pub same_bytes : contents r.0.buffer ≡ l.bytes
  pub same_emitted : r.1 ≡ l.emitted
  pub valid : IsValid r.0.buffer

pub if_true : {A : Type 0} (b : Bool) (x y : A) → b ≡ true → (if b then x else y) ≡ x
if_true true x y h = refl
if_true false x y h = cc

pub if_false : {A : Type 0} (b : Bool) (x y : A) → b ≡ false → (if b then x else y) ≡ y
if_false false x y h = refl
if_false true x y h = cc

module _ {J : Type 0} (parse : List ℕ → Option J) where
  -- Two loops that do the same on what is left.
  abbrev pub Agree : (ℕ → Compile → Done J) → (ℕ → List ℕ → Left J) → Type 0
  Agree again again' =
      (c : Compile)
      → IsValid c.buffer
      → Matches c.pid (again (length (contents c.buffer)) c)
          (again' c.message_length (contents c.buffer))

  -- A decoder that stops where the protocol does.
  pub Matches-stopped :
      (c : Compile) (pid n : ℕ) (xs : List ℕ) (out : List (Emitted J))
      → c.pid ≡ pid
      → c.message_length ≡ n
      → contents c.buffer ≡ xs
      → IsValid c.buffer
      → Matches pid (c, out) (left n xs out)
  Matches-stopped c pid n xs out p l e v = record {
    same_pid = p;
    same_length = l;
    same_bytes = e;
    same_emitted = refl;
    valid = v;
  }

  Matches-emit :
      (pid : ℕ) (e : Emitted J) (r : Done J) (l : Left J)
      → Matches pid r l
      → Matches pid (then_emit e r) (emitting e l)
  Matches-emit pid e (c, out) l h = record {
    same_pid = h.same_pid;
    same_length = h.same_length;
    same_bytes = h.same_bytes;
    same_emitted = ap (◌∷◌ e) h.same_emitted;
    valid = h.valid;
  }

  -- The loop goes on with what a read leaves.
  pub Agree-after :
      (again : ℕ → Compile → Done J) (again' : ℕ → List ℕ → Left J)
      → Agree again again'
      → (c : Compile) (avail : ℕ) (xs : List ℕ) → IsValid c.buffer
      → contents c.buffer ≡ xs
      → avail ≡ length xs
      → Matches c.pid (again avail c) (again' c.message_length xs)
  Agree-after again again' agree c avail xs v e f =
      subst (λ ys. Matches c.pid (again avail c) (again' c.message_length ys)) e
        (subst (λ k. Matches c.pid (again k c) (again' c.message_length (contents c.buffer)))
          (ap length e ∙ sym f) (agree c v))

  pub take_message-Matches :
      (again : ℕ → Compile → Done J) (again' : ℕ → List ℕ → Left J)
      → Agree again again'
      → (c : Compile) → IsValid c.buffer
      → Matches c.pid
          (take_message parse again (length (contents c.buffer)) c)
          (body parse again' c.message_length (contents c.buffer))
  unfolding take_message body parsed
  take_message-Matches again again' agree c v =
      let xs = contents c.buffer in
      let n = c.message_length in
      elim (Bool-cases (n == 0 || ltb (length xs) n)) [
        | inl stop ↦ rw (stop) (Matches-stopped _ _ _ _ _ refl refl refl v)
        | inr go ↦
            let (b, r, rest, w) =
              read-Takes c.buffer n v (ground (arith, go))
                (ground (arith, go, available-eq-length c.buffer)) in
            elim (Option-cases (parse (take n xs))) [
              | inl bad ↦ rw (go, r, bad) (Matches-stopped _ _ _ _ _ refl refl rest w)
              | inr (m, good) ↦
                  rw (go, r, good)
                    (Matches-emit c.pid (message m) _ _ (
                      Agree-after again again' agree (record c { message_length = 0; buffer = b })
                        (length xs - n) (drop n xs) w rest (sym (length-drop n xs))))
            ]
      ]

  on_json_short :
      (again : ℕ → Compile → Done J) (c : Compile) (n : ℕ)
      → ltb n 4 ≡ true
      → c.message_length ≡ 0
      → on_json parse again (suc n) c ≡ (c, [])
  unfolding on_json take_message
  on_json_short again c n h z =
      let short : ltb (suc n) 5 ≡ true = ground (arith, h) in
      let none_yet : c.message_length == 0 || ltb (suc n) c.message_length ≡ true =
        ground (arith, z) in
      rw (short, none_yet) refl

  on_json_long :
      (again : ℕ → Compile → Done J) (c : Compile) (n : ℕ) (x : List ℕ) (b : ClientBuffer)
      (bytes : List ℕ) (b' : ClientBuffer)
      → ltb n 4 ≡ false
      → read c.buffer 1 ≡ ok (x, b)
      → read b 4 ≡ ok (bytes, b')
      → on_json parse again (suc n) c
        ≡ take_message parse again
            (n - 4)
            (record c { message_length = read_uint32_be bytes; buffer = b' })
  unfolding on_json
  on_json_long again c n x b bytes b' h r r' =
      let long : ltb (suc n) 5 ≡ false = ground (arith, h) in
      let e : suc n - 5 ≡ n - 4 = omega arith in
      rw (long, r, r')
        (ap
          (λ k.
            take_message parse again k
              (record c { message_length = read_uint32_be bytes; buffer = b' }))
          e)

  -- A message whose length may be there.
  on_json-Matches :
      (again : ℕ → Compile → Done J) (again' : ℕ → List ℕ → Left J)
      → Agree again again'
      → (c : Compile) (code : ℕ) (xs : List ℕ) → IsValid c.buffer
      → contents c.buffer ≡ code ∷ xs
      → c.message_length ≡ 0
      → Matches c.pid (on_json parse again (length (code ∷ xs)) c) (
          if ltb (length xs) 4
          then left 0 (code ∷ xs) []
          else body parse again' (read_uint32_be (take 4 xs)) (drop 4 xs))
  on_json-Matches again again' agree c code xs v e z = elim (Bool-cases (ltb (length xs) 4)) [
    | inl short ↦
        rw (short, on_json_short again c (length xs) short z) (Matches-stopped _ _ _ _ _ refl z e v)
    | inr long ↦
        let (b, r, rest, w) =
          read-Takes c.buffer 1 v (omega arith)
            (omega (arith, available-eq-length c.buffer, ap length e)) in
        let same : contents b ≡ xs = rest ∙ ap (drop 1) e in
        let (b', r', rest', w') =
          read-Takes b 4 w (omega arith)
            (ground (arith, long, available-eq-length b, ap length same)) in
        let c' = record c { message_length = read_uint32_be (take 4 (contents b)); buffer = b' } in
        rw
          (
            long,
            on_json_long again c (length xs) (take 1 (contents c.buffer)) b (take 4 (contents b)) b'
                long r r',
          )
          (subst
            (λ ys.
              Matches c.pid (take_message parse again (length xs - 4) c')
                (body parse again' (read_uint32_be (take 4 ys)) (drop 4 xs)))
            same
            (Agree-after (take_message parse again) (body parse again')
              (take_message-Matches again again' agree) c' (length xs - 4) (drop 4 xs) w'
              (rest' ∙ ap (drop 4) same) (sym (length-drop 4 xs))))
  ]

  pub frame-Matches :
      (again : ℕ → Compile → Done J) (again' : ℕ → List ℕ → Left J)
      → Agree again again'
      → (c : Compile) (code : ℕ) (xs : List ℕ) → IsValid c.buffer
      → contents c.buffer ≡ code ∷ xs
      → c.message_length ≡ 0
      → Matches c.pid (on_code parse again (length (code ∷ xs)) c code) (frame parse again' code xs)
  unfolding on_code frame
  frame-Matches again again' agree c code xs v e z = elim (Bool-cases (is_slot code)) [
    | inl s ↦
        let (b, r, rest, w) =
          read-Takes c.buffer 1 v (omega arith)
            (omega (arith, available-eq-length c.buffer, ap length e)) in
        let same : contents b ≡ xs = rest ∙ ap (drop 1) e in
        rw (s, r)
          (Matches-emit c.pid (slot code) _ _ (
            subst
              (λ k.
                Matches c.pid (again (length (code ∷ xs) - 1) (record c { buffer = b }))
                  (again' k xs))
              z
              (Agree-after again again' agree (record c { buffer = b }) (length (code ∷ xs) - 1) xs
                w same (omega arith))))
    | inr s ↦ elim (Bool-cases (code == Constants.json)) [
      | inr other ↦ rw (s, other) (Matches-stopped _ _ _ _ _ refl z e v)
      | inl json ↦ rw (s, json) (on_json-Matches again again' agree c code xs v e z)
    ]
  ]
