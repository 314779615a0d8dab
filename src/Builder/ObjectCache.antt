-- ===== src/Builder/ObjectCache.antt =====
-- src/builder/ObjectCache.ts and ObjectCacheItem.ts: the index of the compiled objects on disk, in
-- the order of their last use. A method returns the cache and what it did besides: the events that
-- it emits, and the files that it removes. What the file system answers is an argument. The cache of
-- a pending item's bytes (ObjectCachePendingItem.ts) is its identity and the length of its JSON.
pub mod Accounts
pub mod Purge
pub mod Writes
mod Examples
use Prim.Native.String.{count}
use fisk.Base.{
  ℕ, ◌+◌, ◌-◌, ◌*◌, String, ite, Bool, true, false, ◌&&◌, ◌||◌, Option, none, some, List, [], ◌∷◌,
  ◌++◌, map, ltb, leb, ◌==◌, if◌then◌else◌, String_discrete,
}
use fisk.OrderedMap.{OrderedMap, keys, get, set, delete, has}

pub record IndexEntry : Type 0 where
  pub bytes : ℕ
  pub uncompressed_size : ℕ

pub record Response : Type 0 where
  pub sha1 : Option String
  pub source_path : String
  pub index : List IndexEntry

pub record ObjectCacheItem : Type 0 where
  pub response : Response
  pub header_size : ℕ
  pub cache_hits : ℕ

abbrev pub new_item : Response → ℕ → ObjectCacheItem
new_item response header_size = record {
  response = response;
  header_size = header_size;
  cache_hits = 0;
}

-- index.reduce((total, item) => total + item.bytes, 0)
unfoldable pub total_bytes : ℕ → List IndexEntry → ℕ
total_bytes total [] = total
total_bytes total (e ∷ es) = total_bytes (total + e.bytes) es

unfoldable pub contents_size : ObjectCacheItem → ℕ
unfolding total_bytes
contents_size item = total_bytes 0 item.response.index

unfoldable pub file_size : ObjectCacheItem → ℕ
unfolding contents_size
file_size item = 4 + item.header_size + contents_size item

-- `id` tells two pending items apart, as `===` does.
pub record ObjectCachePendingItem : Type 0 where
  pub id : ℕ
  pub response : Response
  pub json_length : ℕ

pub record ObjectCache : Type 0 where
  pub cache : OrderedMap String ObjectCacheItem
  pub pending : OrderedMap String ObjectCachePendingItem
  pub size : ℕ
  pub max_size : ℕ
  pub purge_size : ℕ

pub data Event : Type 0 where
  added removed : String → ℕ → Event
  unlinked : String → Event

unfoldable pub create : ℕ → ℕ → ObjectCache
create max_size purge_size = record {
  cache = [];
  pending = [];
  size = 0;
  max_size = max_size;
  purge_size = purge_size;
}

-- get cacheHits()
unfoldable pub cache_hits_from : ℕ → OrderedMap String ObjectCacheItem → ℕ
cache_hits_from ret [] = ret
cache_hits_from ret ((sha1, item) ∷ m) = cache_hits_from (ret + item.cache_hits) m

unfoldable pub cache_hits : ObjectCache → ℕ
unfolding cache_hits_from
cache_hits c = cache_hits_from 0 c.cache

pub data State : Type 0 where
  exists pending nothing : State

unfoldable pub state : ObjectCache → String → State
state c sha1 =
    if has String_discrete sha1 c.cache
    then State.exists
    else if has String_discrete sha1 c.pending
    then State.pending
    else State.nothing

abbrev pub remove_item : ObjectCache → String → Option ObjectCacheItem → ObjectCache × List Event
remove_item c sha1 none = (c, [])
remove_item c sha1 (some info) = (
  record c { size = c.size - file_size info; cache = delete String_discrete sha1 c.cache },
  removed sha1 (file_size info) ∷ unlinked sha1 ∷ [],
)

-- A sha1 that is not cached throws at `info.fileSize`, inside the try.
unfoldable pub remove : ObjectCache → String → ObjectCache × List Event
remove c sha1 = remove_item c sha1 (get String_discrete sha1 c.cache)

-- The loop of `purge` over the keys that the cache had at its start.
unfoldable pub purge_keys : ℕ → List String → ObjectCache → ObjectCache × List Event
purge_keys target_size [] c = (c, [])
purge_keys target_size (sha1 ∷ rest) c =
    let (c', es) = remove c sha1 in
    let (c'', es') = purge_keys target_size rest c' in
    if leb c.size target_size then (c, []) else (c'', es ++ es')

unfoldable pub purge : ObjectCache → ℕ → ObjectCache × List Event
purge c target_size = purge_keys target_size (keys c.cache) c

unfoldable pub clear : ObjectCache → ObjectCache × List Event
clear c = purge c 0

-- `if (this.size > this.maxSize) this.purge(this.purgeSize)`
unfoldable pub purge_if_full : ObjectCache → ObjectCache × List Event
purge_if_full c = if ltb c.max_size c.size then purge c c.purge_size else (c, [])

-- A finished item enters the cache.
abbrev pub insert : ObjectCache → String → ObjectCacheItem → ObjectCache
insert c sha1 item = record c {
  size = c.size + file_size item;
  cache = set String_discrete sha1 item c.cache;
}

-- What is read from a file: its size by stat, the length of its header, and the header's JSON, if
-- it parses.
pub record FileOnDisk : Type 0 where
  pub stat_size : ℕ
  pub header_size : ℕ
  pub parsed : Option Response

abbrev has_sha1 : Response → String → Bool
has_sha1 r name = elim r.sha1 [ none ↦ false | some s ↦ ite (String_discrete s name) true false ]

-- The item of a file that passes all checks of loadFile; `none` where one throws.
unfoldable pub checked_item : String → ℕ → Option FileOnDisk → Option ObjectCacheItem
checked_item name size none = none
checked_item name size (some f) =
    if count name == 40
    then (if ltb f.header_size 10 || ltb (1024 * 16) f.header_size then none else elim f.parsed [
      | none ↦ none
      | some r ↦
          if has_sha1 r name && file_size (new_item r f.header_size) == size
          then some (new_item r f.header_size)
          else none
    ])
    else none

abbrev pub stat_of : Option FileOnDisk → ℕ
stat_of none = 0
stat_of (some f) = f.stat_size

-- The event carries the size by stat.
unfoldable pub load_checked :
    ObjectCache → String → ℕ → Option ObjectCacheItem → ObjectCache × List Event
load_checked c name stat none = (c, unlinked name ∷ [])
load_checked c name stat (some item) =
    let (c', es) = purge_if_full (insert c name item) in (c', added name stat ∷ es)

unfoldable pub load_file : ObjectCache → String → ℕ → Option FileOnDisk → ObjectCache × List Event
load_file c name size file =
    if has String_discrete name c.cache
    then (c, [])
    else load_checked c name (stat_of file) (checked_item name size file)

-- What `add` does: nothing, or it throws, or it starts to write.
pub data Added : Type 0 where
  ignored throws : Added
  started : ObjectCache → Added

unfoldable pub add : ObjectCache → Response → ℕ → ℕ → Added
add c response id json_length = elim response.sha1 [
  | none ↦ ignored
  | some sha1 ↦ ite (String_discrete sha1 "") ignored (
      if has String_discrete sha1 c.pending
      then ignored
      else if has String_discrete sha1 c.cache
      then throws
      else started (record c {
        pending =
            set String_discrete sha1
              (record { id = id; response = response; json_length = json_length }) c.pending;
      }))
]

-- The stream's "error" handler.
unfoldable pub write_failed : ObjectCache → String → ObjectCache
write_failed c sha1 = record c { pending = delete String_discrete sha1 c.pending }

abbrev pub is_item : ObjectCachePendingItem → Option ObjectCachePendingItem → Bool
is_item p none = false
is_item p (some q) = p.id == q.id

-- The file has the size that its item says; `stat` is none when statSync throws.
abbrev pub stat_is : ℕ → Option ℕ → Bool
stat_is n none = false
stat_is n (some m) = n == m

abbrev pub end_pending : String → ObjectCache × List Event → ObjectCache × List Event
end_pending sha1 (c, es) = (write_failed c sha1, es)

-- What follows pendingItem.end().
unfoldable pub write_finished :
    ObjectCache → String → ObjectCachePendingItem → Option ℕ → ObjectCache × List Event
unfolding write_failed
write_finished c sha1 p stat =
    let item = new_item p.response p.json_length in
    let (c', es) = purge_if_full (insert c sha1 item) in
    if is_item p (get String_discrete sha1 c.pending)
    then end_pending sha1 (
        if stat_is (file_size item) stat
        then (c', added sha1 (file_size item) ∷ es)
        else (c, unlinked sha1 ∷ []))
    else (c, [])

-- get(sha1, dontTouch): what is touched goes to the end.
unfoldable pub get_item : ObjectCache → String → Bool → ObjectCache × Option ObjectCacheItem
get_item c sha1 dont_touch = elim (get String_discrete sha1 c.cache) [
  | none ↦ (c, none)
  | some ret ↦ (
    if dont_touch then c else record c {
      cache = set String_discrete sha1 ret (delete String_discrete sha1 c.cache);
    },
    some ret,
  )
]

unfoldable pub sync_data : ObjectCache → List (String × ℕ)
sync_data c = map (λ (e : String × ObjectCacheItem). (e.0, file_size e.1)) c.cache
