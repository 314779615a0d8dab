-- ===== src/Builder/Results/Cached.antt =====
-- A job that is served from the object cache.
use fisk.Base.{
  ap, sym, ◌∙◌, ◌++◌, IsUnrepeated, String_discrete, ℕ, ◌+◌, ◌≤◌, ◌<◌, String, ◌≡◌, refl, subst,
  Bool, true, false, ◌&&◌, Option, none, some, List, ◌∷◌, ◌==◌, if◌then◌else◌, length, is_empty,
}
use fisk.OrderedMap.{OrderedMap, get}
use mathlib.Core.Option.{some-injective, none-ne-some}
use fisk.Builder.Results.{
  CompileFinished, Contents, Response, Job, Message, response, Finished, Item, send_compressed,
  cache_index, contents_of, response_of, finish, served, work, cached_response, get_from_cache,
  is_set,
}
use fisk.Builder.Results.Framing.{paths, payload, index_in, outcome, finish-sent}
use fisk.Builder.Results.Working.{body, cache_index-wire, total, work-short, work-Worked}

module _ (gunzip : List ℕ → Option (List ℕ)) where
  get_from_cache-found :
      (items : OrderedMap String Item) (b : Job) (bytes : List ℕ) (sha1 : String) (item : Item)
      → b.sha1 ≡ some sha1
      → is_set (some sha1) ≡ true
      → get String_discrete sha1 items ≡ some item
      → get_from_cache gunzip (some items) b (some bytes) true
        ≡ served
            (response (cached_response (send_compressed b) item.response)
              ∷ (work gunzip
                  (send_compressed b)
                  bytes
                  (4 + item.header_size)
                  item.response.index).0)
            (work gunzip (send_compressed b) bytes (4 + item.header_size) item.response.index).1
  unfolding get_from_cache
  get_from_cache-found items b bytes sha1 item eb set it = rw (eb, set, it, get_from_cache) refl

  -- A job whose object is cached, in a file that can be opened and has fewer bytes behind the header
  -- than the item's index says, is not served to the end: its response is sent, and then
  -- getFromCache ends with an error.
  pub get_from_cache-short :
      (items : OrderedMap String Item) (b : Job) (bytes : List ℕ) (sha1 : String) (item : Item)
      → b.sha1 ≡ some sha1
      → is_set (some sha1) ≡ true
      → get String_discrete sha1 items ≡ some item
      → 4 + item.header_size ≤ length bytes
      → length bytes < 4 + item.header_size + total item.response.index
      → (ms : List Message) × (get_from_cache gunzip (some items) b (some bytes) true
          ≡ served (response (cached_response (send_compressed b) item.response) ∷ ms) false)
  get_from_cache-short items b bytes sha1 item eb set it le lt =
      let sc = send_compressed b in
      let r = work gunzip sc bytes (4 + item.header_size) item.response.index in
      (
        r.0,
        get_from_cache-found items b bytes sha1 item eb set it
            ∙ ap (served (response (cached_response sc item.response) ∷ r.0))
                (work-short gunzip sc bytes (4 + item.header_size) item.response.index le lt),
      )

module _ (gzip : List ℕ → List ℕ) (gunzip : List ℕ → Option (List ℕ))
    (gunzip-gzip : (b : List ℕ) → gunzip (gzip b) ≡ some b)
    (gzip_not_empty : (b : List ℕ) → is_empty (gzip b) ≡ false) where
  if-some : {A : Type 0} (c : Bool) (x y : A) → (if c then some x else none) ≡ some y → x ≡ y
  if-some true x y e = some-injective x y e
  if-some false x y e = absurd (none-ne-some y e)

  -- A job is served from a file with these contents as it would be by the compile.
  abbrev ServedAs :
      Job
      → CompileFinished
      → String
      → String
      → Bool
      → Option ℕ
      → OrderedMap String Item
      → List ℕ
      → List Contents
      → Type 0
  ServedAs b event stdout stderr absent d items header cs =
      (ms : List Message) × (fb : Finished) × (get_from_cache gunzip (some items) b
          (some (header ++ body cs)) true
        ≡ served ms true)
      × (finish gzip b event stdout stderr absent d ≡ some fb)
      × (index_in ms ≡ index_in fb.sent)
      × (payload ms ≡ payload fb.sent)

  -- What a compile adds to the cache.
  abbrev addition : Job → CompileFinished → String → String → Response × List Contents
  addition a event stdout stderr = (
    response_of gzip a event stdout stderr (cache_index (contents_of gzip event.files)),
    contents_of gzip event.files,
  )

  added-same :
      (a : Job) (event : CompileFinished) (stdout stderr : String) (absent : Bool) (d : Option ℕ)
      (fa : Finished) (r : Response) (cs : List Contents)
      → IsUnrepeated String_discrete (paths event.files)
      → finish gzip a event stdout stderr absent d ≡ some fa
      → fa.added ≡ some (r, cs)
      → addition a event stdout stderr ≡ (r, cs)
  added-same a event stdout stderr absent d fa r cs u ea added =
      if-some (event.exit_code == 0 && event.success && absent && is_set a.sha1) _ _ (
        ap (λ f. f.added)
          (some-injective _ _ (sym (finish-sent gzip a event stdout stderr absent d u) ∙ ea))
        ∙ added)

  served_added :
      (a b : Job) (event : CompileFinished) (stdout stderr : String) (absent : Bool) (d : Option ℕ)
      (header : List ℕ) (header_size : ℕ) (items : OrderedMap String Item) (sha1 : String)
      → IsUnrepeated String_discrete (paths event.files)
      → length header ≡ 4 + header_size
      → b.sha1 ≡ some sha1
      → is_set (some sha1) ≡ true
      → get String_discrete sha1 items
        ≡ some (record {
          response =
              response_of gzip a event stdout stderr (cache_index (contents_of gzip event.files));
          header_size = header_size;
        })
      → ServedAs b event stdout stderr absent d items header (contents_of gzip event.files)
  unfolding response_of cached_response
  served_added a b event stdout stderr absent d header header_size items sha1 u h eb set it =
      let cs = contents_of gzip event.files in
      let w =
        work-Worked gzip gunzip gunzip-gzip gzip_not_empty (send_compressed b) header event.files in
      let worked =
        ap (λ n. work gunzip (send_compressed b) (header ++ body cs) n (cache_index cs)) (sym h)
        ∙ w.sends in
      let answer = response (
        cached_response (send_compressed b)
          (response_of gzip a event stdout stderr (cache_index cs))) in
      (
        answer ∷ w.messages,
        outcome gzip b event stdout stderr absent d,
        get_from_cache-found gunzip items b (header ++ body cs) sha1 _ eb set it
            ∙ ap (λ m. served (answer ∷ m.0) m.1) worked,
        finish-sent gzip b event stdout stderr absent d u,
        cache_index-wire (send_compressed b) cs,
        w.bytes,
      )

  -- The compile of one job is added to the cache, and its contents stand in a file behind a header of
  -- the item's size. Then a job with that sha1 is served from the cache to the end without an error,
  -- whichever of the two wants compressed files and supports them; and the index and the bytes that it
  -- gets are those that it would get from the same compile. The files of the compile have different
  -- paths, gunzip is inverse to gzip, and nothing is empty once it is gzipped.
  pub served_as_compiled :
      (a b : Job) (event : CompileFinished) (stdout stderr : String) (absent : Bool) (d : Option ℕ)
      (fa : Finished) (r : Response) (cs : List Contents) (header : List ℕ) (header_size : ℕ)
      (items : OrderedMap String Item) (sha1 : String)
      → IsUnrepeated String_discrete (paths event.files)
      → finish gzip a event stdout stderr absent d ≡ some fa
      → fa.added ≡ some (r, cs)
      → length header ≡ 4 + header_size
      → b.sha1 ≡ some sha1
      → is_set (some sha1) ≡ true
      → get String_discrete sha1 items ≡ some (record { response = r; header_size = header_size })
      → (ms : List Message) × (fb : Finished) × (get_from_cache gunzip
            (some items)
            b
            (some (header ++ body cs))
            true
          ≡ served ms true)
        × (finish gzip b event stdout stderr absent d ≡ some fb)
        × (index_in ms ≡ index_in fb.sent)
        × (payload ms ≡ payload fb.sent)
  served_as_compiled a b event stdout stderr absent d fa r cs header header_size items sha1 u ea
        added h eb set it =
      let same = added-same a event stdout stderr absent d fa r cs u ea added in
      subst
        (λ (p : Response × List Contents).
          get String_discrete sha1 items
            ≡ some (record { response = p.0; header_size = header_size })
          → ServedAs b event stdout stderr absent d items header p.1)
        same
        (served_added a b event stdout stderr absent d header header_size items sha1 u h eb set) it
