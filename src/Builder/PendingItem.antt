-- ===== src/Builder/PendingItem.antt =====
-- src/builder/ObjectCachePendingItem.ts, and how ObjectCache.add uses it: the writes to the stream of
-- a cache file. `accepts n` is what the stream answers to its write number n, false when its buffer is
-- full and it will emit "drain". An error of the stream is ObjectCache.write_failed.
pub mod Drains
mod Examples
use fisk.Base.{
  ℕ, zero, suc, Bool, true, false, ◌&&◌, Option, none, some, List, [], ◌∷◌, ◌++◌, length,
  if◌then◌else◌,
}

-- `stream` has what was given to the stream; `callback` says that the end of the stream resolves the
-- promise of `end`.
pub record PendingItem (D : Type 0) : Type 0 where
  pub stream : List D
  pub buffer : Option (List D)
  pub end_cb : Bool
  pub ended : Bool
  pub callback : Bool
  pub resolved : Bool

abbrev pub is_none : {A : Type 0} → Option A → Bool
is_none none = true
is_none (some a) = false

module _ {D : Type 0} (accepts : ℕ → Bool) where
  unfoldable pub write : PendingItem D → D → PendingItem D
  write p data' = elim p.buffer [
    | some b ↦ record p { buffer = some (b ++ data' ∷ []) }
    | none ↦ record p {
      stream = p.stream ++ data' ∷ [];
      buffer = if accepts (length p.stream) then none else some [];
    }
  ]

  unfoldable pub write_all : PendingItem D → List D → PendingItem D
  unfolding write
  write_all p [] = p
  write_all p (b ∷ bs) = write_all (write p b) bs

  abbrev pub opened : PendingItem D
  opened = record {
    stream = [];
    buffer = none;
    end_cb = false;
    ended = false;
    callback = false;
    resolved = false;
  }

  -- The constructor writes the length of the JSON, and the JSON.
  unfoldable pub create : D → D → PendingItem D
  unfolding write
  create header_size json = write (write opened header_size) json

  -- The end of the "drain" handler.
  unfoldable pub end_drained : PendingItem D → PendingItem D
  end_drained p =
      if is_none p.buffer && p.end_cb then record p { ended = true; resolved = true } else p

  -- The "drain" handler; none when it throws.
  unfoldable pub on_drain : PendingItem D → Option (PendingItem D)
  unfolding end_drained write_all
  on_drain p = elim p.buffer [
    | none ↦ none
    | some buf ↦ some (end_drained (write_all (record p { buffer = none }) buf))
  ]

  -- `end`; none when its promise is rejected.
  unfoldable pub end : PendingItem D → Option (PendingItem D)
  end p =
      if p.end_cb
      then none
      else some (elim p.buffer [
        | some b ↦ record p { end_cb = true }
        | none ↦ record p { ended = true; callback = true }
      ])

  -- What ObjectCache.add does with a new item.
  unfoldable pub add_item : D → D → List D → Option (PendingItem D)
  unfolding create write_all end
  add_item header_size json contents = end (write_all (create header_size json) contents)

  -- So many drains, up to the first that throws.
  unfoldable pub drains : ℕ → PendingItem D → PendingItem D
  unfolding on_drain
  drains zero p = p
  drains (suc n) p = elim (on_drain p) [ none ↦ p | some p' ↦ drains n p' ]
