-- ===== src/Builder/ObjectCache/Writes.antt =====
-- Files enter the cache by `loadFile` and by a finished write; both keep the books and the size limit,
-- as long as the same sha1 did not arrive both ways.

use fisk.Base.{
  ℕ, ◌+◌, ◌≤◌, String, ◌≡◌, inl, inr, Option, none, some, arith, Bool-cases, Option-cases,
  String_discrete,
}
use fisk.OrderedMap.{get}
use fisk.Builder.ObjectCache.{
  ObjectCache, ObjectCacheItem, ObjectCachePendingItem, FileOnDisk, new_item, file_size, insert,
  purge_if_full, load_checked, load_file, checked_item, stat_of, write_failed, is_item, stat_is,
  write_finished,
}
use fisk.Builder.ObjectCache.Accounts.{total, Accounts, insert-Accounts, total-set_old}
use fisk.Builder.ObjectCache.Purge.{IsWithin, purge_if_full-IsWithin}

insert-IsWithin :
    (c : ObjectCache) (sha1 : String) (item : ObjectCacheItem)
    → IsWithin c
    → get String_discrete sha1 c.cache ≡ none
    → IsWithin (purge_if_full (insert c sha1 item)).0
insert-IsWithin c sha1 item w new =
    purge_if_full-IsWithin (insert c sha1 item) w.purge_limited
      (insert-Accounts c sha1 item new w.accounts)

load_checked-IsWithin :
    (c : ObjectCache) (name : String) (stat : ℕ) (item : Option ObjectCacheItem)
    → IsWithin c
    → get String_discrete name c.cache ≡ none
    → IsWithin (load_checked c name stat item).0
unfolding load_checked
load_checked-IsWithin c name stat none w new = w
load_checked-IsWithin c name stat (some item) w new = insert-IsWithin c name item w new

-- In a cache with balanced books and a size within the maximum, loading a file, whatever is found
-- on the disk, keeps both.
pub load_file-IsWithin :
    (c : ObjectCache) (name : String) (size : ℕ) (file : Option FileOnDisk)
    → IsWithin c
    → IsWithin (load_file c name size file).0
unfolding load_file
load_file-IsWithin c name size file w = elim (Option-cases (get String_discrete name c.cache)) [
  | inl new ↦
      rw new (load_checked-IsWithin c name (stat_of file) (checked_item name size file) w new)
  | inr (item, old) ↦ rw old w
]

abbrev written : ObjectCachePendingItem → ObjectCacheItem
written p = new_item p.response p.json_length

write_failed-IsWithin :
    (c : ObjectCache) (sha1 : String) → IsWithin c → IsWithin (write_failed c sha1)
unfolding write_failed
write_failed-IsWithin c sha1 w = record {
  accounts = record { once = w.accounts.once; balanced = w.accounts.balanced };
  limited = w.limited;
  purge_limited = w.purge_limited;
}

-- In a cache with balanced books and a size within the maximum, the end of a write keeps both if
-- the sha1 is not cached by then, whatever the file's size on the disk is.
pub write_finished-IsWithin :
    (c : ObjectCache) (sha1 : String) (p : ObjectCachePendingItem) (stat : Option ℕ)
    → IsWithin c
    → get String_discrete sha1 c.cache ≡ none
    → IsWithin (write_finished c sha1 p stat).0
unfolding write_finished
write_finished-IsWithin c sha1 p stat w new =
    elim (Bool-cases (is_item p (get String_discrete sha1 c.pending))) [
      | inl this ↦ elim (Bool-cases (stat_is (file_size (written p)) stat)) [
        | inl right ↦
            simp (this, right)
              (write_failed-IsWithin _ sha1 (insert-IsWithin c sha1 (written p) w new))
        | inr wrong ↦ simp (this, wrong) (write_failed-IsWithin c sha1 w)
      ]
      | inr other ↦ simp other w
    ]

-- In a cache with balanced books, when a pending write ends with the right size, its sha1 is cached
-- already and the sum is within the maximum, the old file is overwritten in the index but its size
-- is not taken off: the size is then too large by that of the old file.
pub write_finished_double :
    (c : ObjectCache) (sha1 : String) (p : ObjectCachePendingItem) (old : ObjectCacheItem)
    → Accounts c
    → get String_discrete sha1 c.pending ≡ some p
    → get String_discrete sha1 c.cache ≡ some old
    → c.size + file_size (new_item p.response p.json_length) ≤ c.max_size
    → let d = (write_finished c sha1 p (some (file_size (new_item p.response p.json_length)))).0 in
      d.size ≡ total d.cache + file_size old
unfolding write_finished purge_if_full write_failed
write_finished_double c sha1 p old a pend cached room =
    ground (arith, a.balanced, total-set_old sha1 old (written p) c.cache cached)
