-- ===== src/Builder/Results/Working.antt =====
-- The loop of getFromCache in src/builder/fisk-builder.ts, over the files that an index names.
use fisk.Base.{
  ap, sym, ◌∙◌, ◌++◌, length-append, append_assoc, drop-append_length, take-append_length, ℕ, ◌+◌,
  ◌≤◌, ◌<◌, String, ◌≡◌, refl, Bool, true, false, Option, some, List, [], ◌∷◌, arith, if◌then◌else◌,
  length, take, drop, is_empty, length-take, length-drop,
}
use fisk.Builder.Results.{
  CompiledFile, Contents, IndexEntry, Message, data', to_send, cache_index, data_messages, compress,
  contents_of, uncompressed_index, send_buffer, work,
}
use fisk.Builder.Results.Framing.{payload, payload-cons, wire_index}

-- The contents that are written behind the header of the cache's file.
abbrev pub body : List Contents → List ℕ
body [] = []
body (c ∷ cs) = c.contents ++ body cs

pub cache_index-wire :
    (compressed : Bool) (cs : List Contents)
    → (if compressed then cache_index cs else uncompressed_index (cache_index cs))
      ≡ wire_index compressed cs
unfolding cache_index uncompressed_index
cache_index-wire true [] = refl
cache_index-wire false [] = refl
cache_index-wire true (c ∷ cs) = rw (cache_index-wire true cs) refl
cache_index-wire false (c ∷ cs) = rw (cache_index-wire false cs) refl

abbrev pub total : List IndexEntry → ℕ
total [] = 0
total (f ∷ fs) = f.bytes + total fs

module _ (gunzip : List ℕ → Option (List ℕ)) where
  work-cons :
      (compressed : Bool) (file : List ℕ) (pos : ℕ) (path : String) (size : ℕ)
      (fs : List IndexEntry) (buffer b : List ℕ)
      → take (length buffer) (drop pos file) ≡ buffer
      → send_buffer gunzip compressed buffer ≡ some b
      → work gunzip compressed file pos
          (record { path = path; bytes = length buffer; uncompressed_size = size } ∷ fs)
        ≡ (
          data' b ∷ (work gunzip compressed file (pos + length buffer) fs).0,
          (work gunzip compressed file (pos + length buffer) fs).1,
        )
  unfolding work
  work-cons compressed file pos path size fs buffer b t s = ground (arith, t, s)

  -- The bytes that wait behind this position are too few for the index.
  pub work-short :
      (compressed : Bool) (file : List ℕ) (pos : ℕ) (index : List IndexEntry)
      → pos ≤ length file
      → length file < pos + total index
      → (work gunzip compressed file pos index).1 ≡ false
  unfolding work
  work-short compressed file pos [] le lt = absurd (omega (arith, le, lt))
  work-short compressed file pos (f ∷ fs) le lt =
      let ih = work-short compressed file (pos + f.bytes) fs in
      ground (arith, ih, length-take f.bytes (drop pos file), length-drop pos file, le, lt)

module _ (gzip : List ℕ → List ℕ) (gunzip : List ℕ → Option (List ℕ))
    (gunzip-gzip : (b : List ℕ) → gunzip (gzip b) ≡ some b)
    (gzip_not_empty : (b : List ℕ) → is_empty (gzip b) ≡ false) where
  send_buffer-compress :
      (compressed : Bool) (b : List ℕ)
      → send_buffer gunzip compressed (compress gzip b)
        ≡ some (if compressed then compress gzip b else b)
  unfolding send_buffer compress
  send_buffer-compress true b = refl
  send_buffer-compress false [] = refl
  send_buffer-compress false (n ∷ ns) = rw (gzip_not_empty (n ∷ ns), gunzip-gzip (n ∷ ns)) refl

  -- The messages that `work` sends for the files behind these bytes.
  pub record Worked (compressed : Bool) (front : List ℕ) (fs : List CompiledFile) : Type 0 where
    pub messages : List Message
    pub sends :
        work gunzip compressed
          (front ++ body (contents_of gzip fs))
          (length front)
          (cache_index (contents_of gzip fs))
        ≡ (messages, true)
    pub bytes :
        payload messages ≡ payload (data_messages (to_send compressed (contents_of gzip fs)))

  pub work-Worked :
      (compressed : Bool) (front : List ℕ) (fs : List CompiledFile) → Worked compressed front fs
  unfolding work contents_of cache_index to_send data_messages
  work-Worked compressed front [] = record { messages = []; sends = refl; bytes = refl }
  work-Worked compressed front (f ∷ fs) =
      let z = compress gzip f.bytes in
      let b = if compressed then z else f.bytes in
      let rest = body (contents_of gzip fs) in
      let index = cache_index (contents_of gzip fs) in
      let w = work-Worked compressed (front ++ z) fs in
      record {
        messages = data' b ∷ w.messages;
        sends =
            work-cons gunzip compressed (front ++ (z ++ rest)) (length front) f.path
              (length f.bytes) index z b
              (ap (take (length z)) (drop-append_length front (z ++ rest))
                ∙ take-append_length z rest)
              (send_buffer-compress compressed f.bytes)
            ∙ ap (λ r. (data' b ∷ r.0, r.1))
                (ap (λ x. work gunzip compressed x (length front + length z) index)
                    (sym (append_assoc front z rest))
                  ∙ ap (λ n. work gunzip compressed ((front ++ z) ++ rest) n index)
                      (sym (length-append front z))
                  ∙ w.sends);
        bytes =
            ap (λ x. b ++ x) w.bytes
            ∙ sym (payload-cons b f.path (to_send compressed (contents_of gzip fs)));
      }
