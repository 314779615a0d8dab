-- ===== src/Builder/ObjectCache/Purge.antt =====
-- A purge removes the files that were used longest ago, and no more of them than it must.
use fisk.Base.{
  ℕ, ◌+◌, ◌-◌, ◌≤◌, ◌<◌, String, ◌≡◌, refl, sym, ap, subst, ◌∙◌, ◌⊎◌, inl, inr, [], ◌∷◌, ◌++◌,
  arith, ltb, leb, if◌then◌else◌, Bool-cases, String_discrete,
}
use fisk.OrderedMap.{OrderedMap, keys, get, delete}
use fisk.OrderedMap.Laws.{IsDistinct, get-cons_self, delete-cons_self}
use fisk.Builder.ObjectCache.{
  ObjectCache, ObjectCacheItem, file_size, remove, remove_item, purge_keys, purge, purge_if_full,
}
use fisk.Builder.ObjectCache.Accounts.{total, Accounts}

-- The longest rest of the cache, in its order, that fits the target.
pub fit : ℕ → OrderedMap String ObjectCacheItem → OrderedMap String ObjectCacheItem
fit target_size [] = []
fit target_size ((sha1, item) ∷ m) =
    let rest = fit target_size m in
    if leb (total ((sha1, item) ∷ m)) target_size then (sha1, item) ∷ m else rest

remove_oldest :
    (c : ObjectCache) (sha1 : String) (item : ObjectCacheItem)
    (m : OrderedMap String ObjectCacheItem)
    → c.cache ≡ (sha1, item) ∷ m
    → Accounts c
    → (remove c sha1).0 ≡ record c { size = total m; cache = m }
unfolding remove
remove_oldest c sha1 item m e a =
    let found = ap (get String_discrete sha1) e ∙ get-cons_self String_discrete sha1 item m in
    let rest =
      ap (delete String_discrete sha1) e
      ∙ delete-cons_self String_discrete sha1 item m
          (subst (IsDistinct String_discrete) e a.once) in
    let size : c.size - file_size item ≡ total m = omega (arith, a.balanced, ap total e) in
    rw (found, remove_item) (λ i. record c { size = size i; cache = rest i })

purge_keys-fit :
    (target_size : ℕ) (m : OrderedMap String ObjectCacheItem) (c : ObjectCache)
    → c.cache ≡ m
    → Accounts c
    → (purge_keys target_size (keys m) c).0
      ≡ record c { size = total (fit target_size m); cache = fit target_size m }
unfolding purge_keys fit
purge_keys-fit target_size [] c e a =
    λ i. record c { size = (a.balanced ∙ ap total e) i; cache = e i }
purge_keys-fit target_size ((sha1, item) ∷ m) c e a =
    let size = a.balanced ∙ ap total e in
    let once = subst (IsDistinct String_discrete) e a.once in
    elim (Bool-cases (leb c.size target_size)) [
      | inl fits ↦
          let fits' = ap (λ n. leb n target_size) (sym size) ∙ fits in
          rw (fits, fits') (λ i. record c { size = size i; cache = e i })
      | inr full ↦
          let full' = ap (λ n. leb n target_size) (sym size) ∙ full in
          rw (full, full')
            (ap (λ c'. (purge_keys target_size (keys m) c').0) (remove_oldest c sha1 item m e a)
              ∙ purge_keys-fit target_size m (record c { size = total m; cache = m }) refl
                  (record { once = once.1; balanced = refl }))
    ]

-- A purge keeps the longest rest of the cache that fits the target, and the books with it.
pub purge-fit :
    (c : ObjectCache) (target_size : ℕ)
    → Accounts c
    → (purge c target_size).0
      ≡ record c { size = total (fit target_size c.cache); cache = fit target_size c.cache }
unfolding purge
purge-fit c target_size a = purge_keys-fit target_size c.cache c refl a

fit-IsDistinct :
    (target_size : ℕ) (m : OrderedMap String ObjectCacheItem)
    → IsDistinct String_discrete m
    → IsDistinct String_discrete (fit target_size m)
unfolding fit
fit-IsDistinct target_size [] h = tt
fit-IsDistinct target_size ((sha1, item) ∷ m) h = ground (arith, fit-IsDistinct target_size m h.1)

fit-le :
    (target_size : ℕ) (m : OrderedMap String ObjectCacheItem)
    → total (fit target_size m) ≤ target_size
unfolding fit
fit-le target_size [] = omega arith
fit-le target_size ((sha1, item) ∷ m) = ground (arith, fit-le target_size m)

-- What a purge keeps is the end of the cache, and with the last file that it gave up the rest would
-- not have fitted.
abbrev pub LongestRest :
    ℕ → OrderedMap String ObjectCacheItem → OrderedMap String ObjectCacheItem → Type 0
LongestRest target_size m rest =
    (rest ≡ m)
    ⊎ ((older : OrderedMap String ObjectCacheItem) × (last : String × ObjectCacheItem) × (m
          ≡ older ++ last ∷ rest)
        × (target_size < file_size last.1 + total rest))

fit-LongestRest :
    (target_size : ℕ) (m : OrderedMap String ObjectCacheItem)
    → LongestRest target_size m (fit target_size m)
unfolding fit
fit-LongestRest target_size [] = inl refl
fit-LongestRest target_size ((sha1, item) ∷ m) =
    elim (Bool-cases (leb (total ((sha1, item) ∷ m)) target_size)) [
      | inl fits ↦ rw fits (inl refl)
      | inr full ↦ rw full (
          inr (elim (fit-LongestRest target_size m) [
            | inl all ↦ ([], (sha1, item), ap (◌∷◌ (sha1, item)) (sym all), rw all (ground arith))
            | inr (older, last, e, over) ↦
                ((sha1, item) ∷ older, last, ap (◌∷◌ (sha1, item)) e, over)
          ]))
    ]

-- After a purge of a cache with balanced books its size is at most the target, the books are
-- balanced, and the files that are left are the longest part from the end of the cache that fits.
pub purge_lem :
    (c : ObjectCache) (target_size : ℕ)
    → Accounts c
    → ((purge c target_size).0.size ≤ target_size)
      × Accounts (purge c target_size).0
      × LongestRest target_size c.cache (purge c target_size).0.cache
purge_lem c target_size a = rw (purge-fit c target_size a) (
  fit-le target_size c.cache,
  record { once = fit-IsDistinct target_size c.cache a.once; balanced = refl },
  fit-LongestRest target_size c.cache,
)

-- Where the size is over the maximum the cache is purged; with a purge size that is no larger than
-- the maximum it never stays over. The limits stay as they are.
pub record IsWithin (c : ObjectCache) : Type 0 where
  pub accounts : Accounts c
  pub limited : c.size ≤ c.max_size
  pub purge_limited : c.purge_size ≤ c.max_size

pub purge_if_full-IsWithin :
    (c : ObjectCache) → c.purge_size ≤ c.max_size → Accounts c → IsWithin (purge_if_full c).0
unfolding purge_if_full
purge_if_full-IsWithin c h a = elim (Bool-cases (ltb c.max_size c.size)) [
  | inl over ↦
      let p = purge_lem c c.purge_size a in
      let q = purge-fit c c.purge_size a in
      rw over (record {
        accounts = p.1;
        limited = omega (arith, p.0, ap (λ (d : ObjectCache). d.max_size) q);
        purge_limited = omega (
          arith,
          ap (λ (d : ObjectCache). d.max_size) q,
          ap (λ (d : ObjectCache). d.purge_size) q,
        );
      })
  | inr small ↦ rw small (record { accounts = a; limited = ground arith; purge_limited = h })
]

pub pending-purge_if_full : (c : ObjectCache) → Accounts c → (purge_if_full c).0.pending ≡ c.pending
unfolding purge_if_full
pending-purge_if_full c a = elim (Bool-cases (ltb c.max_size c.size)) [
  | inl over ↦ rw over (ap (λ (d : ObjectCache). d.pending) (purge-fit c c.purge_size a))
  | inr small ↦ rw small
]
