-- ===== src/Daemon/Compile/Encoding.antt =====
-- How a client writes its messages, with the header that `send` of src/daemon/Compile.ts writes too,
-- and what the decoder makes of a message that is there, all of it or its beginning.
use fisk.Base.{
  ℕ, ◌/◌, ◌%◌, ◌<◌, ◌≡◌, refl, ap, ◌∙◌, true, false, ◌||◌, Option, none, some, List, ◌∷◌, ◌++◌,
  append_assoc, arith, ltb, ◌==◌, length, length-append, take-append_length, drop-append_length, [],
}
use fisk.Daemon.Constants
use fisk.Daemon.Compile.{Emitted, slot, message, destroyed, is_slot, read_uint32_be}
use fisk.Daemon.Compile.Frames.{Left, emitting, parsed, body, frame}
use fisk.Daemon.Compile.Fuel.{decode, decode-frame}

-- header.writeUInt32BE
unfoldable pub uint32_be : ℕ → List ℕ
uint32_be n = n / 16777216 % 256 ∷ n / 65536 % 256 ∷ n / 256 % 256 ∷ n % 256 ∷ []

-- The header and the bytes of a JSON message.
unfoldable pub framed : ℕ → List ℕ → List ℕ
unfolding uint32_be
framed code msg = code ∷ uint32_be (length msg) ++ msg

-- send(message): a number, or an object whose JSON has these bytes.
pub data Outgoing : Type 0 where
  number : ℕ → Outgoing
  object : List ℕ → Outgoing

unfoldable pub send : Outgoing → List ℕ
unfolding framed
send (number n) = n % 256 ∷ []
send (object msg) = framed Constants.json_response msg

-- What a client says.
pub data ClientMessage : Type 0 where
  code : ℕ → ClientMessage
  json : List ℕ → ClientMessage

unfoldable pub encode : ClientMessage → List ℕ
unfolding framed
encode (code n) = n ∷ []
encode (json msg) = framed Constants.json msg

pub read-uint32_be : (n : ℕ) → n < 4294967296 → read_uint32_be (uint32_be n) ≡ n
unfolding read_uint32_be uint32_be
read-uint32_be n h = omega arith

module _ {J : Type 0} (parse : List ℕ → Option J) where
  -- A code of a slot, or JSON of one byte or more, fewer than 2 ^ 32, that parses.
  abbrev pub IsValid : ClientMessage → Type 0
  IsValid (code n) = is_slot n ≡ true
  IsValid (json msg) =
      (0 < length msg) × ((length msg < 4294967296) × ((j : J) × (parse msg ≡ some j)))

  abbrev pub said : Option J → Emitted J
  said none = destroyed
  said (some j) = message j

  -- What a message is for the daemon.
  unfoldable pub expected : ClientMessage → Emitted J
  expected (code n) = slot n
  expected (json msg) = said (parse msg)

  pub frame-json :
      (f : ℕ → List ℕ → Left J) (msg ys : List ℕ)
      → length msg < 4294967296
      → frame parse f Constants.json (uint32_be (length msg) ++ ys) ≡ body parse f (length msg) ys
  unfolding frame uint32_be is_slot
  frame-json f msg ys h =
      let long : ltb (length (uint32_be (length msg) ++ ys)) 4 ≡ false = ground arith in
      rw (long) (ap (λ n. body parse f n ys) (read-uint32_be (length msg) h))

  -- A message that is there is emitted, and the decoder goes on behind it.
  pub decode-encode :
      (m : ClientMessage) (v : IsValid m) (zs : List ℕ)
      → decode parse 0 (encode m ++ zs) ≡ emitting (expected m) (decode parse 0 zs)
  unfolding encode framed frame body parsed expected
  decode-encode (code n) v zs = decode-frame parse n zs ∙ rw (v) refl
  decode-encode (json msg) (some_bytes, (few, (j, good))) zs =
      let n = length msg in
      let all_there : n == 0 || ltb (length (msg ++ zs)) n ≡ false =
        ground (arith, some_bytes, length-append msg zs) in
      decode-frame parse Constants.json _
      ∙ ap (λ ys. frame parse (decode parse) Constants.json ys) (append_assoc (uint32_be n) msg zs)
      ∙ frame-json (decode parse) msg (msg ++ zs) few
      ∙ rw (all_there, take-append_length msg zs, drop-append_length msg zs, good) refl
