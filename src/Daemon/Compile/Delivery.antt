-- ===== src/Daemon/Compile/Delivery.antt =====
-- What a client says, in whatever chunks it arrives, is what the daemon hears: `_onData` of
-- src/daemon/Compile.ts, once for each chunk.
use fisk.Base.{
  ℕ, ◌+◌, ◌<◌, ◌≡◌, refl, sym, ap, subst, ◌∙◌, ◌≢◌, Option, List, ◌∷◌, ◌++◌, map, append-nil,
  append_assoc, arith, dec_lt, length, take, drop, length-append, take-append_length, length-drop,
  split-longer, [],
}
use fisk.Daemon.ClientBuffer.Contents.{contents, IsValid, flatten}
use fisk.Daemon.Compile.{Compile, Done, create, read_uint32_be, on_data}
use fisk.Daemon.ClientBuffer
use fisk.Daemon.Compile.Frames.{frames}
use fisk.Daemon.Compile.Fuel.{decode, frames_enough}
use fisk.Daemon.Compile.Encoding.{ClientMessage, expected}
use fisk.Daemon.Compile.RoundTrip.{encode_all, AllValid, Represents, Progress, decode-Progress}
use fisk.Daemon.Compile.Messages.{Matches}
use fisk.Daemon.Compile.Refinement.{on_data-Matches, on_data-Matches_first}

abbrev pub AllFilled : List (List ℕ) → Type 0
AllFilled [] = Unit {0}
AllFilled (chunk ∷ chunks) = (0 < length chunk) × AllFilled chunks

module _ {J : Type 0} (parse : List ℕ → Option J) where
  -- The chunks, one after the other, and all that was emitted.
  unfoldable pub on_all : Compile → List (List ℕ) → Done J
  unfolding on_data
  on_all c [] = (c, [])
  on_all c (chunk ∷ chunks) =
      let (c1, out) = on_data parse c chunk in
      let (c2, out') = on_all c1 chunks in (c2, out ++ out')

  -- The state after a chunk: the pid is known, and the decoder is where Progress says.
  record Stands (ms : List ClientMessage) (v : List ℕ) (c : Compile) : Type 0 where
    pending : List ℕ
    known : c.pid ≢ 0
    valid : IsValid c.buffer
    remembered : Represents parse c.message_length (contents c.buffer) pending
    onward : pending ++ v ≡ encode_all ms
    all_valid : AllValid parse ms
    finished : length v ≡ 0 → ms ≡ []

  Progress-Stands :
      (ms : List ClientMessage) (u v : List ℕ) (pid : ℕ) (r : Done J)
      → pid ≢ 0
      → Matches pid r (decode parse 0 u)
      → (p : Progress parse ms u v) → Stands p.rest v r.0
  Progress-Stands ms u v pid r known m p = record {
    pending = p.pending;
    known = λ e. known (sym m.same_pid ∙ e);
    valid = m.valid;
    remembered = rw (m.same_length, m.same_bytes) p.remembered;
    onward = p.onward;
    all_valid = p.rest_valid;
    finished = p.finished;
  }

  -- The rest of the stream, chunk by chunk.
  Stands-Delivers :
      (chunks : List (List ℕ)) (ms : List ClientMessage) (c : Compile)
      → AllFilled chunks
      → Stands ms (flatten chunks) c
      → (on_all c chunks).1 ≡ map (expected parse) ms
  unfolding on_all
  Stands-Delivers [] ms c filled s = sym (ap (map (expected parse)) (s.finished refl))
  Stands-Delivers (chunk ∷ chunks) ms c filled s =
      let u = s.pending ++ chunk in
      let p =
        decode-Progress parse ms u (flatten chunks) s.all_valid
          (append_assoc s.pending chunk (flatten chunks) ∙ s.onward) in
      let m = on_data-Matches parse c chunk s.valid filled.0 s.known in
      let d = s.remembered chunk in
      let m' = subst (Matches c.pid (on_data parse c chunk)) d m in
      let later =
        Stands-Delivers chunks p.rest (on_data parse c chunk).0 filled.1
          (Progress-Stands ms u (flatten chunks) c.pid (on_data parse c chunk) s.known m' p) in
      rw (m'.same_emitted, later) p.so_far

  -- The first chunks, as long as the pid is not complete.
  first_chunks :
      (chunks : List (List ℕ)) (ms : List ClientMessage) (pid_bytes : List ℕ) (c : Compile)
      → AllFilled chunks
      → AllValid parse ms
      → length pid_bytes ≡ 4
      → read_uint32_be pid_bytes ≢ 0
      → c.pid ≡ 0
      → c.message_length ≡ 0
      → IsValid c.buffer
      → length (contents c.buffer) < 4
      → contents c.buffer ++ flatten chunks ≡ pid_bytes ++ encode_all ms
      → (on_all c chunks).1 ≡ map (expected parse) ms
  unfolding on_all
  first_chunks [] ms pid_bytes c filled w four nonzero unknown none_begun v few e = absurd (
      omega (
        arith,
        ap length e,
        length-append pid_bytes (encode_all ms),
        ap length (append-nil (contents c.buffer)),
      ))
  first_chunks (chunk ∷ chunks) ms pid_bytes c filled w four nonzero unknown none_begun v few e =
      let xs = contents c.buffer ++ chunk in
      let e' : xs ++ flatten chunks ≡ pid_bytes ++ encode_all ms =
        append_assoc (contents c.buffer) chunk (flatten chunks) ∙ e in
      let first = on_data-Matches_first parse c chunk v filled.0 unknown in
      elim (dec_lt (length xs) 4) [
        | yes short ↦
            let m = first.0 short in
            let later =
              first_chunks chunks ms pid_bytes (on_data parse c chunk).0 filled.1 w four nonzero
                m.same_pid (m.same_length ∙ none_begun) m.valid
                (omega (arith, ap length m.same_bytes))
                (ap (λ ys. ys ++ flatten chunks) m.same_bytes ∙ e') in
            rw (m.same_emitted, later) refl
        | no enough ↦
            let m = first.1 (omega arith) in
            let (f, g) =
              split-longer xs (flatten chunks) pid_bytes (encode_all ms) e' (omega arith) in
            let y = drop 4 xs in
            let g' : y ++ flatten chunks ≡ encode_all ms =
              ap (λ k. drop k xs ++ flatten chunks) (sym four) ∙ g in
            let pid_is : take 4 xs ≡ pid_bytes =
              ap (λ k. take k xs) (sym four)
              ∙ ap (take (length pid_bytes)) f
              ∙ take-append_length pid_bytes (drop (length pid_bytes) xs) in
            let d : frames parse (length xs + 1) c.message_length y ≡ decode parse 0 y =
              ap (λ n. frames parse (length xs + 1) n y) none_begun
              ∙ frames_enough parse (length xs + 1) (length y + 1) 0 y
                  (omega (arith, length-drop 4 xs)) (omega arith) in
            let m' = subst (Matches (read_uint32_be (take 4 xs)) (on_data parse c chunk)) d m in
            let p = decode-Progress parse ms y (flatten chunks) w g' in
            let later = Stands-Delivers chunks p.rest (on_data parse c chunk).0 filled.1 (
              Progress-Stands ms y (flatten chunks) (read_uint32_be (take 4 xs))
                (on_data parse c chunk) (λ z. nonzero (sym (ap read_uint32_be pid_is) ∙ z)) m' p) in
            rw (m'.same_emitted, later) p.so_far
      ]

  -- When a client sends its pid, four bytes that are not 0, and then its messages, each a code of a
  -- slot or JSON of one byte or more, fewer than 2 ^ 32, that parses, then however the bytes are cut
  -- into chunks, none of them empty, the daemon emits these messages, each once and in their order.
  pub on_all-encode_all :
      (chunks : List (List ℕ)) (ms : List ClientMessage) (pid_bytes : List ℕ)
      → AllFilled chunks
      → AllValid parse ms
      → length pid_bytes ≡ 4
      → read_uint32_be pid_bytes ≢ 0
      → flatten chunks ≡ pid_bytes ++ encode_all ms
      → (on_all create chunks).1 ≡ map (expected parse) ms
  unfolding create ClientBuffer.create
  on_all-encode_all chunks ms pid_bytes filled w four nonzero e =
      first_chunks chunks ms pid_bytes create filled w four nonzero refl refl refl (omega arith) e
