-- ===== src/Builder/ObjectCache/Examples.antt =====
-- A cache of three files, and the theorems on it.

use fisk.Base.{ℕ, ◌≤◌, String, ◌≡◌, refl, some, [], ◌∷◌, arith, String_discrete}
use fisk.OrderedMap.{get, delete}
use fisk.Builder.ObjectCache.{
  ObjectCache, ObjectCacheItem, ObjectCachePendingItem, Response, FileOnDisk, removed, unlinked,
  new_item, file_size, remove, purge, purge_keys, checked_item,
}
use fisk.Builder.ObjectCache.Accounts.{Accounts}
use fisk.Builder.ObjectCache.Purge.{LongestRest, IsWithin, purge_lem}

abbrev response : String → ℕ → Response
response sha1 bytes = record {
  sha1 = some sha1;
  source_path = "a.cpp";
  index = record { bytes = bytes; uncompressed_size = bytes } ∷ [];
}

abbrev item : String → ℕ → ObjectCacheItem
item sha1 bytes = new_item (response sha1 bytes) 16

-- Files of 30, 40 and 50 bytes.
abbrev three : ObjectCache
three = record {
  cache = ("a", item "a" 10) ∷ ("b", item "b" 20) ∷ ("c", item "c" 30) ∷ [];
  pending = ("d", record { id = 1; response = response "d" 60; json_length = 16 }) ∷ [];
  size = 120;
  max_size = 200;
  purge_size = 100;
}

three-Accounts : Accounts three
unfolding get String_discrete file_size
three-Accounts = record { once = (refl, (refl, (refl, tt))); balanced = refl }

three-IsWithin : IsWithin three
three-IsWithin = record {
  accounts = three-Accounts;
  limited = omega arith;
  purge_limited = omega arith;
}

purge_runs : purge three 60 ≡ (
  record three { cache = ("c", item "c" 30) ∷ []; size = 50 },
  removed "a" 30 ∷ unlinked "a" ∷ removed "b" 40 ∷ unlinked "b" ∷ [],
)
unfolding purge purge_keys remove get delete String_discrete file_size
purge_runs = refl

purge_lem_example :
    ((purge three 60).0.size ≤ 60)
    × Accounts (purge three 60).0
    × LongestRest 60 three.cache (purge three 60).0.cache
purge_lem_example = purge_lem three 60 three-Accounts

abbrev name : String
name = "0123456789012345678901234567890123456789"

abbrev on_disk : FileOnDisk
on_disk = record { stat_size = 90; header_size = 16; parsed = some (response name 70) }

accepted : checked_item name 90 (some on_disk) ≡ some (item name 70)
unfolding checked_item String_discrete file_size
accepted = refl

abbrev writing : ObjectCachePendingItem
writing = record { id = 1; response = response "d" 60; json_length = 16 }

-- The same, with "d" fetched from another builder during the write.
abbrev raced : ObjectCache
raced = record {
  cache = ("d", item "d" 60) ∷ [];
  pending = ("d", writing) ∷ [];
  size = 80;
  max_size = 200;
  purge_size = 100;
}

raced-Accounts : Accounts raced
unfolding get String_discrete file_size
raced-Accounts = record { once = (refl, tt); balanced = refl }
