-- ===== src/Builder/Results.antt =====
-- src/builder/fisk-builder.ts: what a job gets, from its compile (the end of the "finished" handler)
-- or from the object cache (getFromCache). The bytes of the compile's files and of the file of the
-- cache are arguments; gzip and gunzip are zlib's gzipSync and gunzipSync, where gunzip is none when
-- it throws.
pub mod Framing
pub mod Working
pub mod Cached
mod Examples
use fisk.Base.{
  ℕ, ◌+◌, String, ite, Bool, true, false, not, ◌&&◌, Option, none, some, List, [], ◌∷◌, length,
  take, drop, is_empty, if◌then◌else◌, ◌==◌, String_discrete,
}
use fisk.OrderedMap.{OrderedMap, get}

pub record CompiledFile : Type 0 where
  pub path : String
  pub bytes : List ℕ

pub record CompileFinished : Type 0 where
  pub files : List CompiledFile
  pub success : Bool
  pub exit_code : ℕ
  pub error : Option String
  pub cpp_size : ℕ
  pub compile_duration : ℕ

pub record Contents : Type 0 where
  pub contents : List ℕ
  pub uncompressed : List ℕ
  pub path : String

-- An entry of toSend.
pub record Sending : Type 0 where
  pub contents : List ℕ
  pub path : String

pub record IndexEntry : Type 0 where
  pub path : String
  pub bytes : ℕ
  pub uncompressed_size : ℕ

pub record Response : Type 0 where
  pub index : List IndexEntry
  pub success : Bool
  pub exit_code : ℕ
  pub sha1 : Option String
  pub stderr : String
  pub stdout : String
  pub error : Option String
  pub object_cache : Bool

pub record Job : Type 0 where
  pub id : ℕ
  pub sha1 : Option String
  pub compressed : Bool
  pub supports_compressed_response : Bool

pub data Message : Type 0 where
  response : Response → Message
  data' : List ℕ → Message

-- What the scheduler is told of a compile: jobFinished, or jobAborted.
pub record Report : Type 0 where
  pub finished : Bool
  pub id : ℕ
  pub cpp_size : ℕ
  pub compile_duration : ℕ
  pub upload_duration : ℕ

-- An item of the object cache.
pub record Item : Type 0 where
  pub response : Response
  pub header_size : ℕ

unfoldable pub send_compressed : Job → Bool
send_compressed job = job.compressed && job.supports_compressed_response

-- `contents.find((c) => c.path === path)`
unfoldable pub find_path : String → List Contents → Option Contents
find_path path [] = none
find_path path (c ∷ cs) = ite (String_discrete c.path path) (some c) (find_path path cs)

unfoldable pub to_send : Bool → List Contents → List Sending
to_send compressed [] = []
to_send compressed (c ∷ cs) =
    record { contents = if compressed then c.contents else c.uncompressed; path = c.path }
    ∷ to_send compressed cs

-- The index of the response; none when an `assert` throws.
unfoldable pub index_of : List Contents → List Sending → Option (List IndexEntry)
unfolding find_path
index_of contents [] = some []
index_of contents (s ∷ rest) = elim (find_path s.path contents) [
  | none ↦ none
  | some original ↦ elim (index_of contents rest) [
    | none ↦ none
    | some es ↦ some (
        record {
          path = s.path;
          bytes = length s.contents;
          uncompressed_size = length original.uncompressed;
        }
        ∷ es)
  ]
]

-- The index of the response that is cached.
unfoldable pub cache_index : List Contents → List IndexEntry
cache_index [] = []
cache_index (c ∷ cs) =
    record { path = c.path; bytes = length c.contents; uncompressed_size = length c.uncompressed }
    ∷ cache_index cs

-- What is sent behind the response: no message for an empty file.
unfoldable pub data_messages : List Sending → List Message
data_messages [] = []
data_messages (s ∷ rest) =
    let ms = data_messages rest in if is_empty s.contents then ms else data' s.contents ∷ ms

abbrev pub is_set : Option String → Bool
is_set none = false
is_set (some s) = ite (String_discrete s "") false true

-- The "finished" handler after the job left the queue: the messages to the job, what is added to the
-- cache, and what the scheduler is told, none when the `assert` of the upload's duration throws.
pub record Finished : Type 0 where
  pub sent : List Message
  pub added : Option (Response × List Contents)
  pub report : Option Report

module _ (gzip : List ℕ → List ℕ) where
  unfoldable pub compress : List ℕ → List ℕ
  compress b = if is_empty b then b else gzip b

  unfoldable pub contents_of : List CompiledFile → List Contents
  unfolding compress
  contents_of [] = []
  contents_of (f ∷ fs) =
      record { contents = compress f.bytes; uncompressed = f.bytes; path = f.path } ∷ contents_of fs

  -- The response with this index.
  unfoldable pub response_of : Job → CompileFinished → String → String → List IndexEntry → Response
  response_of job event stdout stderr index = record {
    index = index;
    success = event.success;
    exit_code = event.exit_code;
    sha1 = job.sha1;
    stderr = stderr;
    stdout = stdout;
    error = event.error;
    object_cache = false;
  }

  -- `absent` says that the object cache is on and neither has nor writes the sha1.
  unfoldable pub finish :
      Job → CompileFinished → String → String → Bool → Option ℕ → Option Finished
  unfolding response_of contents_of to_send index_of cache_index data_messages send_compressed
  finish job event stdout stderr absent upload_duration =
      let contents = contents_of event.files in
      let sending = to_send (send_compressed job) contents in
      elim (index_of contents sending) [
        | none ↦ none
        | some index ↦ some (record {
          sent = response (response_of job event stdout stderr index) ∷ data_messages sending;
          added =
              if event.exit_code == 0 && event.success && absent && is_set job.sha1
              then some (response_of job event stdout stderr (cache_index contents), contents)
              else none;
          report = elim upload_duration [
            | none ↦ none
            | some d ↦ some (record {
              finished = event.success;
              id = job.id;
              cpp_size = event.cpp_size;
              compile_duration = event.compile_duration;
              upload_duration = d;
            })
          ];
        })
      ]

-- What getFromCache does: it returns false; or false, and removes the object; or it closes the job
-- after the response and returns true; or it returns true and calls back, with an error or not.
-- With an error the object is removed and the job closed, and else the item has one hit more.
pub data Served : Type 0 where
  not_cached : Served
  missing : Served
  closed : List Message → Served
  served : List Message → Bool → Served

-- The response for a client that gets the files uncompressed.
unfoldable pub uncompressed_index : List IndexEntry → List IndexEntry
uncompressed_index [] = []
uncompressed_index (f ∷ fs) =
    record { path = f.path; bytes = f.uncompressed_size; uncompressed_size = f.uncompressed_size }
    ∷ uncompressed_index fs

unfoldable pub cached_response : Bool → Response → Response
unfolding uncompressed_index
cached_response compressed r = record r {
  object_cache = true;
  index = if compressed then r.index else uncompressed_index r.index;
}

module _ (gunzip : List ℕ → Option (List ℕ)) where
  -- The bytes that are sent for those that were read.
  unfoldable pub send_buffer : Bool → List ℕ → Option (List ℕ)
  send_buffer compressed buffer =
      if not compressed && not (is_empty buffer) then gunzip buffer else some buffer

  -- `work`: one file of the index after the other, and whether there was no error.
  unfoldable pub work : Bool → List ℕ → ℕ → List IndexEntry → List Message × Bool
  unfolding send_buffer
  work compressed file pos [] = ([], true)
  work compressed file pos (f ∷ fs) =
      let buffer = take f.bytes (drop pos file) in
      let (ms, good) = work compressed file (pos + f.bytes) fs in
      if length buffer == f.bytes
      then elim (send_buffer compressed buffer) [
        | none ↦ ([], false)
        | some b ↦ (data' b ∷ ms, good)
      ]
      else ([], false)

  -- `file` is none when the file does not exist, and `opens` false when openSync throws.
  unfoldable pub get_from_cache :
      Option (OrderedMap String Item) → Job → Option (List ℕ) → Bool → Served
  unfolding work cached_response send_compressed
  get_from_cache cache job file opens = elim cache [
    | none ↦ not_cached
    | some items ↦ elim job.sha1 [
      | none ↦ not_cached
      | some sha1 ↦ elim (if is_set (some sha1) then get String_discrete sha1 items else none) [
        | none ↦ not_cached
        | some item ↦ elim file [
          | none ↦ missing
          | some bytes ↦
              let r = cached_response (send_compressed job) item.response in
              if opens
              then (let (ms, good) =
                    work (send_compressed job) bytes (4 + item.header_size) item.response.index in
                  served (response r ∷ ms) good)
              else closed (response r ∷ [])
        ]
      ]
    ]
  ]
