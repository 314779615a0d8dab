-- ===== src/Builder/Results/Framing.antt =====
-- The index of a response frames the bytes that follow it.
use fisk.Base.{
  IsUnrepeated, holds, ℕ, String, ◌≡◌, refl, sym, ap, subst, ◌∙◌, if_pos, Bool, false, ◌&&◌, Option,
  none, some, List, [], ◌∷◌, ◌++◌, map, arith, ◌==◌, if◌then◌else◌, String_discrete, length, take,
  drop, take-append_length, drop-append_length,
}
use fisk.Builder.Results.{
  CompiledFile, CompileFinished, Contents, Sending, IndexEntry, Job, Message, response, data',
  Finished, send_compressed, find_path, to_send, index_of, cache_index, data_messages, compress,
  contents_of, response_of, finish, is_set,
}

-- The bytes of the messages behind the response.
abbrev pub payload : List Message → List ℕ
payload [] = []
payload (response r ∷ ms) = payload ms
payload (data' b ∷ ms) = b ++ payload ms

-- What a client cuts out of the bytes by an index.
abbrev pub split : List IndexEntry → List ℕ → List (List ℕ)
split [] bytes = []
split (f ∷ fs) bytes = take f.bytes bytes ∷ split fs (drop f.bytes bytes)

abbrev pub paths : List CompiledFile → List String
paths [] = []
paths (f ∷ fs) = f.path ∷ paths fs

abbrev sending_paths : List Sending → List String
sending_paths [] = []
sending_paths (s ∷ rest) = s.path ∷ sending_paths rest

-- The index of a response with these contents.
abbrev pub wire_index : Bool → List Contents → List IndexEntry
wire_index compressed [] = []
wire_index compressed (c ∷ cs) =
    record {
      path = c.path;
      bytes = length (if compressed then c.contents else c.uncompressed);
      uncompressed_size = length c.uncompressed;
    }
    ∷ wire_index compressed cs

index_of-skip :
    (c : Contents) (cs : List Contents) (rest : List Sending)
    → holds String_discrete c.path (sending_paths rest) ≡ false
    → index_of (c ∷ cs) rest ≡ index_of cs rest
unfolding index_of find_path
index_of-skip c cs [] h = refl
index_of-skip c cs (s ∷ rest) h = ground (arith, index_of-skip c cs rest)

index_of-cons :
    (s : Sending) (rest : List Sending) (cs : List Contents) (original : Contents)
    (es : List IndexEntry)
    → find_path s.path cs ≡ some original
    → index_of cs rest ≡ some es
    → index_of cs (s ∷ rest)
      ≡ some (
          record {
            path = s.path;
            bytes = length s.contents;
            uncompressed_size = length original.uncompressed;
          }
          ∷ es)
unfolding index_of
index_of-cons s rest cs original es p q = rw (p, q, index_of) refl

pub payload-cons :
    (b : List ℕ) (path : String) (rest : List Sending)
    → payload (data_messages (record { contents = b; path = path } ∷ rest))
      ≡ b ++ payload (data_messages rest)
unfolding data_messages
payload-cons [] path rest = refl
payload-cons (n ∷ ns) path rest = refl

-- The index of the response in front.
abbrev pub index_in : List Message → List IndexEntry
index_in [] = []
index_in (response r ∷ ms) = r.index
index_in (data' b ∷ ms) = []

module _ (gzip : List ℕ → List ℕ) where
  abbrev file_contents : CompiledFile → Contents
  file_contents f = record {
    contents = compress gzip f.bytes;
    uncompressed = f.bytes;
    path = f.path;
  }

  -- What the end of a compile does when no `assert` of the index throws.
  abbrev pub outcome : Job → CompileFinished → String → String → Bool → Option ℕ → Finished
  outcome job event stdout stderr absent upload_duration =
      let contents = contents_of gzip event.files in
      let compressed = send_compressed job in
      record {
        sent =
            response (response_of gzip job event stdout stderr (wire_index compressed contents))
            ∷ data_messages (to_send compressed contents);
        added =
            if event.exit_code == 0 && event.success && absent && is_set job.sha1
            then some (response_of gzip job event stdout stderr (cache_index contents), contents)
            else none;
        report = elim upload_duration [
          | none ↦ none
          | some d ↦ some (record {
            finished = event.success;
            id = job.id;
            cpp_size = event.cpp_size;
            compile_duration = event.compile_duration;
            upload_duration = d;
          })
        ];
      }

  paths-to_send :
      (compressed : Bool) (fs : List CompiledFile)
      → sending_paths (to_send compressed (contents_of gzip fs)) ≡ paths fs
  unfolding to_send contents_of
  paths-to_send compressed [] = refl
  paths-to_send compressed (f ∷ fs) = ap (◌∷◌ f.path) (paths-to_send compressed fs)

  find_path-first : (c : Contents) (cs : List Contents) → find_path c.path (c ∷ cs) ≡ some c
  unfolding find_path
  find_path-first c cs = if_pos (String_discrete c.path c.path) refl _ _

  pub index_of-wire :
      (compressed : Bool) (fs : List CompiledFile)
      → IsUnrepeated String_discrete (paths fs)
      → index_of (contents_of gzip fs) (to_send compressed (contents_of gzip fs))
        ≡ some (wire_index compressed (contents_of gzip fs))
  unfolding index_of to_send contents_of
  index_of-wire compressed [] d = refl
  index_of-wire compressed (f ∷ fs) d =
      let c = file_contents f in
      let cs = contents_of gzip fs in
      index_of-cons _ (to_send compressed cs) (c ∷ cs) c (wire_index compressed cs)
        (find_path-first c cs)
        (index_of-skip c cs (to_send compressed cs) (
            subst (λ ps. holds String_discrete f.path ps ≡ false)
              (sym (paths-to_send compressed fs)) d.0)
          ∙ index_of-wire compressed fs d.1)

  -- What a client cuts out of the bytes are the files, whatever comes behind them.
  split-payload :
      (compressed : Bool) (cs : List Contents)
      → split (wire_index compressed cs) (payload (data_messages (to_send compressed cs)))
        ≡ map (λ s. s.contents) (to_send compressed cs)
  unfolding to_send data_messages
  split-payload compressed [] = refl
  split-payload compressed (c ∷ cs) =
      let b = if compressed then c.contents else c.uncompressed in
      let rest = payload (data_messages (to_send compressed cs)) in
      ap (λ x. take (length b) x ∷ split (wire_index compressed cs) (drop (length b) x))
        (payload-cons b c.path (to_send compressed cs))
      ∙ rw (take-append_length b rest, drop-append_length b rest, split-payload compressed cs) refl

  -- A compile whose files have different paths is answered: no `assert` of the index throws.
  pub finish-sent :
      (job : Job) (event : CompileFinished) (stdout stderr : String) (absent : Bool) (d : Option ℕ)
      → IsUnrepeated String_discrete (paths event.files)
      → finish gzip job event stdout stderr absent d
        ≡ some (outcome job event stdout stderr absent d)
  unfolding finish
  finish-sent job event stdout stderr absent d u =
      rw (index_of-wire (send_compressed job) event.files u, finish) refl

  -- The bytes of each file as a job gets them.
  abbrev pub wanted : Bool → List CompiledFile → List (List ℕ)
  wanted compressed [] = []
  wanted compressed (f ∷ fs) =
      (if compressed then compress gzip f.bytes else f.bytes) ∷ wanted compressed fs

  contents-to_send :
      (compressed : Bool) (fs : List CompiledFile)
      → map (λ s. s.contents) (to_send compressed (contents_of gzip fs)) ≡ wanted compressed fs
  unfolding to_send contents_of
  contents-to_send compressed [] = refl
  contents-to_send compressed (f ∷ fs) =
      ap (◌∷◌ (if compressed then compress gzip f.bytes else f.bytes))
        (contents-to_send compressed fs)

  -- When a compile ends and its files have different paths, no `assert` of the index throws, and what
  -- the index of the response cuts out of the bytes that are sent behind it are the files in their
  -- order, empty ones too, compressed when the job wants that and supports it, and as they are else.
  pub finish-framed :
      (job : Job) (event : CompileFinished) (stdout stderr : String) (absent : Bool) (d : Option ℕ)
      → IsUnrepeated String_discrete (paths event.files)
      → (f : Finished) × (finish gzip job event stdout stderr absent d ≡ some f)
        × (split (index_in f.sent) (payload f.sent) ≡ wanted (send_compressed job) event.files)
  unfolding response_of
  finish-framed job event stdout stderr absent d u = (
    outcome job event stdout stderr absent d,
    finish-sent job event stdout stderr absent d u,
    split-payload (send_compressed job) (contents_of gzip event.files)
        ∙ contents-to_send (send_compressed job) event.files,
  )
