-- ===== src/Daemon/Compile/RoundTrip.antt =====
-- What a client says, in whatever chunks it arrives, is what the daemon hears: the protocol's part.
use fisk.Base.{
  ℕ, ◌<◌, ◌≡◌, refl, sym, ap, subst, ◌∙◌, true, ◌||◌, Option, List, ◌∷◌, ◌++◌, map, append_assoc,
  arith, dec_lt, dec_le, ltb, ◌==◌, length, drop, length-append, length-drop, split-longer, [],
}
use fisk.Daemon.Constants
use fisk.Daemon.Compile.{is_slot}
use fisk.Daemon.Compile.Frames.{left, emitting, body, frame, frames}
use fisk.Daemon.Compile.Fuel.{decode, decode-frame, decode-body}
use fisk.Daemon.Compile.Encoding.{
  ClientMessage, code, json, encode, framed, uint32_be, IsValid, expected, decode-encode,
  frame-json,
}

unfoldable pub encode_all : List ClientMessage → List ℕ
unfolding encode
encode_all [] = []
encode_all (m ∷ ms) = encode m ++ encode_all ms

module _ {J : Type 0} (parse : List ℕ → Option J) where
  abbrev pub AllValid : List ClientMessage → Type 0
  AllValid [] = Unit {0}
  AllValid (m ∷ ms) = IsValid parse m × AllValid ms

  -- The decoder with this length and these bytes goes on as one that just got `pending`.
  abbrev pub Represents : ℕ → List ℕ → List ℕ → Type 0
  Represents n xs pending =
      (ys : List ℕ) → decode parse n (xs ++ ys) ≡ decode parse 0 (pending ++ ys)

  -- The beginning of a message emits nothing and is remembered.
  abbrev IsRemembered : List ℕ → Type 0
  IsRemembered p =
      ((decode parse 0 p).emitted ≡ [])
      × Represents (decode parse 0 p).message_length (decode parse 0 p).bytes p

  short_header :
      (p : List ℕ)
      → length p < 4
      → decode parse 0 (Constants.json ∷ p) ≡ left 0 (Constants.json ∷ p) []
  unfolding frame is_slot
  short_header p h =
      let short : ltb (length p) 4 ≡ true = ground (arith, h) in
      decode-frame parse Constants.json p ∙ rw (short) refl

  begun_body :
      (msg p : List ℕ)
      → length msg < 4294967296
      → length p < length msg
      → decode parse 0 (Constants.json ∷ uint32_be (length msg) ++ p) ≡ left (length msg) p []
  unfolding body
  begun_body msg p few h =
      let short : length msg == 0 || ltb (length p) (length msg) ≡ true = ground (arith, h) in
      decode-frame parse Constants.json (uint32_be (length msg) ++ p)
      ∙ frame-json parse (decode parse) msg p few
      ∙ rw (short) refl

  resumed_body :
      (msg p : List ℕ)
      → length msg < 4294967296
      → length p < length msg
      → Represents (length msg) p (Constants.json ∷ uint32_be (length msg) ++ p)
  resumed_body msg p few h ys =
      decode-body parse (length msg) (p ++ ys) (λ e. omega arith)
      ∙ sym (frame-json parse (decode parse) msg (p ++ ys) few)
      ∙ sym (decode-frame parse Constants.json (uint32_be (length msg) ++ (p ++ ys)))
      ∙ ap (λ zs. decode parse 0 (Constants.json ∷ zs))
          (sym (append_assoc (uint32_be (length msg)) p ys))

  IsRemembered-left :
      (n : ℕ) (p xs : List ℕ) → decode parse 0 p ≡ left n xs [] → Represents n xs p → IsRemembered p
  IsRemembered-left n p xs e r =
      (ap (λ l. l.emitted) e, subst (λ l. Represents l.message_length l.bytes p) (sym e) r)

  prefix_json :
      (msg p q : List ℕ)
      → length msg < 4294967296
      → p ++ q ≡ uint32_be (length msg) ++ msg
      → 0 < length q
      → IsRemembered (Constants.json ∷ p)
  unfolding uint32_be
  prefix_json msg p q few e more = elim (dec_lt (length p) 4) [
    | yes short ↦
        IsRemembered-left 0 (Constants.json ∷ p) (Constants.json ∷ p) (short_header p short)
          (λ ys. refl)
    | no long ↦
        let (f, g) = split-longer p q (uint32_be (length msg)) msg e (omega arith) in
        let b = drop 4 p in
        let fewer : length b < length msg = omega (arith, ap length g, length-append b q) in
        subst (λ xs. IsRemembered (Constants.json ∷ xs)) (sym f)
          (IsRemembered-left (length msg) (Constants.json ∷ uint32_be (length msg) ++ b) b
            (begun_body msg b few fewer) (resumed_body msg b few fewer))
  ]

  abbrev first : List ℕ → ℕ
  first [] = 0
  first (x ∷ xs) = x

  prefix-IsRemembered :
      (m : ClientMessage) (p q : List ℕ)
      → IsValid parse m
      → p ++ q ≡ encode m
      → 0 < length q
      → IsRemembered p
  unfolding encode framed frames
  prefix-IsRemembered m [] q v e more = (refl, λ ys. refl)
  prefix-IsRemembered (code n) (x ∷ p) q v e more =
      absurd (omega (arith, ap length e, length-append p q))
  prefix-IsRemembered (json msg) (x ∷ p) q v e more =
      subst (λ k. IsRemembered (k ∷ p)) (sym (ap first e))
        (prefix_json msg p q v.1.0 (ap (drop 1) e) more)

  -- How far the decoder is after the bytes `u` of a stream that goes on with `v`: `rest` is still to be
  -- emitted, and the bytes `pending` of it have arrived.
  pub record Progress (ms : List ClientMessage) (u v : List ℕ) : Type 0 where
    pub rest : List ClientMessage
    pub pending : List ℕ
    pub so_far : (decode parse 0 u).emitted ++ map (expected parse) rest ≡ map (expected parse) ms
    pub remembered : Represents (decode parse 0 u).message_length (decode parse 0 u).bytes pending
    pub onward : pending ++ v ≡ encode_all rest
    pub rest_valid : AllValid rest
    pub finished : length v ≡ 0 → rest ≡ []

  pub decode-Progress :
      (ms : List ClientMessage) (u v : List ℕ)
      → AllValid ms
      → u ++ v ≡ encode_all ms
      → Progress ms u v
  unfolding encode_all frames
  decode-Progress [] [] v w e = record {
    rest = [];
    pending = [];
    so_far = refl;
    remembered = λ ys. refl;
    onward = e;
    rest_valid = tt;
    finished = λ h. refl;
  }
  decode-Progress [] (x ∷ u) v w e = absurd (omega (arith, ap length e, length-append u v))
  decode-Progress (m ∷ ms) u v w e = elim (dec_le (length (encode m)) (length u)) [
    | yes there ↦
        let (f, g) = split-longer u v (encode m) (encode_all ms) e there in
        let r = decode-Progress ms (drop (length (encode m)) u) v w.1 g in
        let d : decode parse 0 u
            ≡ emitting (expected parse m) (decode parse 0 (drop (length (encode m)) u)) =
          ap (decode parse 0) f ∙ decode-encode parse m w.0 (drop (length (encode m)) u) in
        record {
          rest = r.rest;
          pending = r.pending;
          so_far =
              ap (λ l. l.emitted ++ map (expected parse) r.rest) d
              ∙ ap (◌∷◌ (expected parse m)) r.so_far;
          remembered =
              subst (λ l. Represents l.message_length l.bytes r.pending) (sym d) r.remembered;
          onward = r.onward;
          rest_valid = r.rest_valid;
          finished = r.finished;
        }
    | no part ↦
        let (f, g) = split-longer (encode m) (encode_all ms) u v (sym e) (omega arith) in
        let q = drop (length u) (encode m) in
        let more : 0 < length q = omega (arith, length-drop (length u) (encode m)) in
        let (nothing, r) = prefix-IsRemembered m u q w.0 (sym f) more in
        record {
          rest = m ∷ ms;
          pending = u;
          so_far = ap (λ out. out ++ map (expected parse) (m ∷ ms)) nothing;
          remembered = r;
          onward = e;
          rest_valid = w;
          finished = λ h. absurd (omega (arith, ap length g, length-append q (encode_all ms)));
        }
  ]
