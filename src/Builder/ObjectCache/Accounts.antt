-- ===== src/Builder/ObjectCache/Accounts.antt =====
-- The books of the object cache: no sha1 is indexed twice, and `size` is the sum of the files' sizes.
use fisk.Base.{
  ℕ, ◌+◌, String, ◌≡◌, ap, ◌∙◌, inl, inr, Bool, true, false, none, some, [], ◌∷◌, ◌++◌, arith,
  if◌then◌else◌, Option-cases, String_discrete,
}
use fisk.OrderedMap.{OrderedMap, get, set, delete}
use fisk.OrderedMap.Laws.{
  IsDistinct, get-delete_self, set_new, delete_absent, set-IsDistinct, delete-IsDistinct,
}
use fisk.Builder.ObjectCache.{
  ObjectCache, ObjectCacheItem, file_size, remove, remove_item, insert, get_item,
}

abbrev pub total : OrderedMap String ObjectCacheItem → ℕ
total [] = 0
total ((sha1, item) ∷ m) = file_size item + total m

pub record Accounts (c : ObjectCache) : Type 0 where
  pub once : IsDistinct String_discrete c.cache
  pub balanced : c.size ≡ total c.cache

pub total-append : (m n : OrderedMap String ObjectCacheItem) → total (m ++ n) ≡ total m + total n
total-append [] n = omega arith
total-append ((sha1, item) ∷ m) n = omega (arith, total-append m n)

-- A deleted entry takes its size with it.
pub total-delete :
    (sha1 : String) (item : ObjectCacheItem) (m : OrderedMap String ObjectCacheItem)
    → IsDistinct String_discrete m
    → get String_discrete sha1 m ≡ some item
    → total (delete String_discrete sha1 m) + file_size item ≡ total m
unfolding get delete
total-delete sha1 item [] h e = cc
total-delete sha1 item ((s, i) ∷ m) h e = elim (String_discrete s sha1) [
  | yes p ↦ ground (arith, delete_absent String_discrete sha1 m)
  | no p ↦ ground (arith, total-delete sha1 item m h.1)
]

pub total-set_new :
    (sha1 : String) (item : ObjectCacheItem) (m : OrderedMap String ObjectCacheItem)
    → get String_discrete sha1 m ≡ none
    → total (set String_discrete sha1 item m) ≡ total m + file_size item
total-set_new sha1 item m h =
    ap total (set_new String_discrete sha1 item m h)
    ∙ total-append m ((sha1, item) ∷ [])
    ∙ omega arith

-- A file that takes the place of another changes the sum by the difference.
pub total-set_old :
    (sha1 : String) (old item : ObjectCacheItem) (m : OrderedMap String ObjectCacheItem)
    → get String_discrete sha1 m ≡ some old
    → total (set String_discrete sha1 item m) + file_size old ≡ total m + file_size item
unfolding get set
total-set_old sha1 old item [] e = cc
total-set_old sha1 old item ((s, i) ∷ m) e = elim (String_discrete s sha1) [
  | yes p ↦ ground arith
  | no p ↦ ground (arith, total-set_old sha1 old item m)
]

-- Removing a file keeps the books, whether it was cached or not.
pub remove-Accounts : (c : ObjectCache) (sha1 : String) → Accounts c → Accounts (remove c sha1).0
unfolding remove
remove-Accounts c sha1 a = elim (Option-cases (get String_discrete sha1 c.cache)) [
  | inl e ↦ rw (e, remove_item) a
  | inr (item, e) ↦
      rw (e, remove_item)
        (record {
          once = delete-IsDistinct String_discrete sha1 c.cache a.once;
          balanced = omega (arith, total-delete sha1 item c.cache a.once e, a.balanced);
        })
]

-- A new file enters the books.
pub insert-Accounts :
    (c : ObjectCache) (sha1 : String) (item : ObjectCacheItem)
    → get String_discrete sha1 c.cache ≡ none
    → Accounts c
    → Accounts (insert c sha1 item)
insert-Accounts c sha1 item new a = record {
  once = set-IsDistinct String_discrete sha1 item c.cache a.once;
  balanced = omega (arith, total-set_new sha1 item c.cache new, a.balanced);
}

-- A file that is touched goes to the end of the cache, as the one used last.
pub touched :
    (c : ObjectCache) (sha1 : String) (item : ObjectCacheItem)
    → get String_discrete sha1 c.cache ≡ some item
    → (get_item c sha1 false).0
      ≡ record c { cache = delete String_discrete sha1 c.cache ++ (sha1, item) ∷ [] }
unfolding get_item
touched c sha1 item e =
    rw (e, get_item)
      (ap (λ m. record c { cache = m })
        (set_new String_discrete sha1 item (delete String_discrete sha1 c.cache)
          (get-delete_self String_discrete sha1 c.cache)))

pub touched-Accounts :
    (c : ObjectCache) (sha1 : String) (dont_touch : Bool)
    → Accounts c
    → Accounts (get_item c sha1 dont_touch).0
unfolding get_item
touched-Accounts c sha1 dont_touch a = elim (Option-cases (get String_discrete sha1 c.cache)) [
  | inl e ↦ rw (e, get_item) a
  | inr (item, e) ↦ rw (e, get_item) (touch dont_touch item e)
]
  where
    touch :
        (b : Bool) (item : ObjectCacheItem)
        → get String_discrete sha1 c.cache ≡ some item
        → Accounts (
            if b then c else record c {
              cache = set String_discrete sha1 item (delete String_discrete sha1 c.cache);
            })
    touch true item e = a
    touch false item e = record {
      once =
          set-IsDistinct String_discrete sha1 item _
            (delete-IsDistinct String_discrete sha1 c.cache a.once);
      balanced = omega (
        arith,
        a.balanced,
        total-delete sha1 item c.cache a.once e,
        total-set_new sha1 item (delete String_discrete sha1 c.cache)
            (get-delete_self String_discrete sha1 c.cache),
      );
    }

-- In a cache with balanced books a lookup answers what is cached and keeps the books balanced. With
-- a touch a cached file moves to the end of the cache; without one nothing changes.
pub get_item_lem :
    (c : ObjectCache) (sha1 : String) (dont_touch : Bool)
    → Accounts c
    → ((get_item c sha1 dont_touch).1 ≡ get String_discrete sha1 c.cache)
      × Accounts (get_item c sha1 dont_touch).0
      × ((item : ObjectCacheItem)
          → get String_discrete sha1 c.cache ≡ some item
          → (get_item c sha1 false).0.cache
            ≡ delete String_discrete sha1 c.cache ++ (sha1, item) ∷ [])
      × ((get_item c sha1 true).0 ≡ c)
unfolding get_item
get_item_lem c sha1 dont_touch a = (
  ground arith,
  touched-Accounts c sha1 dont_touch a,
  (λ item e. ap (λ (d : ObjectCache). d.cache) (touched c sha1 item e)),
  ground arith,
)
