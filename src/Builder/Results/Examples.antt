-- ===== src/Builder/Results/Examples.antt =====
-- A compile of two files, one of them empty, whose result is cached and served.
use fisk.Base.{
  ℕ, ◌≡◌, refl, String, Bool, true, false, Option, none, some, List, [], ◌∷◌, ◌++◌, arith,
  IsUnrepeated, String_discrete,
}
use fisk.OrderedMap.{OrderedMap, get}
use fisk.Builder.Results.{
  CompileFinished, Contents, IndexEntry, Response, Job, Message, response, data', Finished, Item,
  served, finish, get_from_cache, contents_of, compress, index_of, find_path, to_send, cache_index,
  data_messages, response_of, send_compressed, cached_response,
}
use fisk.Builder.Results.Framing.{payload, split, index_in, paths, finish-framed}
use fisk.Builder.Results.Working.{body}
use fisk.Builder.Results.Cached.{get_from_cache-short, served_as_compiled}

-- A byte in front stands for the compression.
abbrev gzip : List ℕ → List ℕ
gzip b = 31 ∷ b

abbrev gunzip : List ℕ → Option (List ℕ)
gunzip [] = none
gunzip (n ∷ b) = some b

abbrev event : CompileFinished
event = record {
  files =
      record { path = "a.o"; bytes = 1 ∷ 2 ∷ [] }
      ∷ record { path = "a.d"; bytes = [] }
      ∷ record { path = "a.gcno"; bytes = 3 ∷ [] }
      ∷ [];
  success = true;
  exit_code = 0;
  error = none;
  cpp_size = 100;
  compile_duration = 7;
}

abbrev job : Bool → Job
job compressed = record {
  id = 1;
  sha1 = some "F00";
  compressed = compressed;
  supports_compressed_response = true;
}

abbrev cached_index : List IndexEntry
cached_index =
    record { path = "a.o"; bytes = 3; uncompressed_size = 2 }
    ∷ record { path = "a.d"; bytes = 0; uncompressed_size = 0 }
    ∷ record { path = "a.gcno"; bytes = 2; uncompressed_size = 1 }
    ∷ []

abbrev answer : List IndexEntry → Response
answer index = record {
  index = index;
  success = true;
  exit_code = 0;
  sha1 = some "F00";
  stderr = "";
  stdout = "";
  error = none;
  object_cache = false;
}

abbrev contents : List Contents
contents =
    record { contents = 31 ∷ 1 ∷ 2 ∷ []; uncompressed = 1 ∷ 2 ∷ []; path = "a.o" }
    ∷ record { contents = []; uncompressed = []; path = "a.d" }
    ∷ record { contents = 31 ∷ 3 ∷ []; uncompressed = 3 ∷ []; path = "a.gcno" }
    ∷ []

abbrev finished : Finished
finished = record {
  sent = response (answer cached_index) ∷ data' (31 ∷ 1 ∷ 2 ∷ []) ∷ data' (31 ∷ 3 ∷ []) ∷ [];
  added = some (answer cached_index, contents);
  report = some (record {
    finished = true;
    id = 1;
    cpp_size = 100;
    compile_duration = 7;
    upload_duration = 5;
  });
}

finishes : finish gzip (job true) event "" "" true (some 5) ≡ some finished
unfolding finish contents_of compress index_of find_path to_send cache_index data_messages
    response_of send_compressed String_discrete
finishes = refl

-- The `assert` of the upload's duration throws when no data of the job has come.
no_upload :
    (f : Finished) × (finish gzip (job true) event "" "" true none ≡ some f) × (f.report ≡ none)
unfolding finish contents_of compress index_of find_path to_send cache_index data_messages
    response_of send_compressed String_discrete
no_upload = (record finished { report = none }, refl, refl)

paths_differ : IsUnrepeated String_discrete (paths event.files)
unfolding String_discrete
paths_differ = (refl, (refl, (refl, tt)))

abbrev item : Item
item = record { response = answer cached_index; header_size = 1 }

abbrev items : OrderedMap String Item
items = ("F00", item) ∷ []

abbrev header : List ℕ
header = 1 ∷ 0 ∷ 0 ∷ 0 ∷ 99 ∷ []

has_item : get String_discrete "F00" items ≡ some item
unfolding get String_discrete
has_item = refl

finish-framed_example :
    (f : Finished) × (finish gzip (job false) event "" "" true (some 5) ≡ some f)
    × (split (index_in f.sent) (payload f.sent) ≡ (1 ∷ 2 ∷ []) ∷ [] ∷ (3 ∷ []) ∷ [])
unfolding send_compressed
finish-framed_example = finish-framed gzip (job false) event "" "" true (some 5) paths_differ

get_from_cache-short_example :
    (ms : List Message) × (get_from_cache gunzip
        (some items)
        (job false)
        (some (header ++ 31 ∷ []))
        true
      ≡ served (response (cached_response (send_compressed (job false)) item.response) ∷ ms) false)
unfolding String_discrete
get_from_cache-short_example =
    get_from_cache-short gunzip items (job false) (header ++ 31 ∷ []) "F00" item refl refl has_item
      (omega arith) (omega arith)

served_as_compiled_example :
    (ms : List Message) × (fb : Finished) × (get_from_cache gunzip
        (some items)
        (job false)
        (some (header ++ body contents))
        true
      ≡ served ms true)
    × (finish gzip (job false) event "" "" true (some 5) ≡ some fb)
    × (index_in ms ≡ index_in fb.sent)
    × (payload ms ≡ payload fb.sent)
unfolding String_discrete
served_as_compiled_example =
    served_as_compiled gzip gunzip (λ b. refl) (λ b. refl) (job true) (job false) event "" "" true
      (some 5) finished (answer cached_index) contents header 1 items "F00" paths_differ finishes
      refl refl refl refl has_item
