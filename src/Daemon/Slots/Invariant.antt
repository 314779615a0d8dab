-- ===== src/Daemon/Slots/Invariant.antt =====
-- The invariant of a slot pool, and that each method keeps it when a request comes from a client
-- that neither holds a slot nor waits for one.
use fisk.Base.{
  ℕ, ◌+◌, ◌≤◌, ◌<◌, ◌≡◌, refl, ap, ◌⊎◌, inl, inr, none, some, List, [], ◌∷◌, ◌++◌, arith,
  ℕ_discrete, ltb, ltb→lt, Bool-cases, Option-cases, length,
}
use fisk.OrderedMap.{OrderedMap, get, set, delete}
use fisk.OrderedMap.Laws.{
  IsDistinct, get-set, get-delete, set-IsDistinct, delete-IsDistinct, length-delete, length-set_new,
  length-set-le, get-cons_self,
}
use fisk.Daemon.Slots.{
  Slots, MapData, Event, changed, done, create, occupy, try_acquire, acquire, serve_first,
  release_used, release,
}

-- At most `count` slots are used, a request waits only while all are, and no client is listed twice.
pub record IsValid {C : Type 0} (s : Slots C) : Type 0 where
  pub bounded : length s.used ≤ s.count
  pub busy : (s.pending ≡ []) ⊎ (length s.used ≡ s.count)
  pub used_once : IsDistinct ℕ_discrete s.used
  pub pending_once : IsDistinct ℕ_discrete s.pending
  pub apart : (id : ℕ) → (get ℕ_discrete id s.used ≡ none) ⊎ (get ℕ_discrete id s.pending ≡ none)

-- The client `id` neither holds a slot nor waits for one.
abbrev pub IsFree : {C : Type 0} → Slots C → ℕ → Type 0
IsFree s id = (get ℕ_discrete id s.used ≡ none) × (get ℕ_discrete id s.pending ≡ none)

module _ {C : Type 0} where
  pub create-IsValid : (n : ℕ) → IsValid (create {C = C} n)
  unfolding create get
  create-IsValid n = record {
    bounded = omega arith;
    busy = inl refl;
    used_once = tt;
    pending_once = tt;
    apart = λ id. inl refl;
  }

  -- While a slot is free nobody waits.
  pub occupy-IsValid :
      (s : Slots C) (id pid : ℕ) → IsValid s → length s.used < s.count → IsValid (occupy s id pid)
  unfolding get
  occupy-IsValid s id pid v room =
      let idle : s.pending ≡ [] = ground (arith, v.busy) in
      record {
        bounded = omega (arith, length-set-le ℕ_discrete id pid s.used);
        busy = inl idle;
        used_once = set-IsDistinct ℕ_discrete id pid s.used v.used_once;
        pending_once = v.pending_once;
        apart = λ j. inr (ap (get ℕ_discrete j) idle);
      }

  -- Taking a slot without waiting keeps a pool valid, also for a client that has one.
  pub try_acquire-IsValid :
      (s : Slots C) (id pid : ℕ) → IsValid s → IsValid (try_acquire s id pid).0
  unfolding try_acquire
  try_acquire-IsValid s id pid v = elim (Bool-cases (ltb (length s.used) s.count)) [
    | inl room ↦ rw room (occupy-IsValid s id pid v (ltb→lt _ _ room))
    | inr full ↦ rw full v
  ]

  enqueue-IsValid :
      (s : Slots C) (id : ℕ) (p : MapData C)
      → IsValid s
      → IsFree s id
      → length s.used ≡ s.count
      → IsValid (record s { pending = set ℕ_discrete id p s.pending })
  enqueue-IsValid s id p v free full = record {
    bounded = v.bounded;
    busy = inr full;
    used_once = v.used_once;
    pending_once = set-IsDistinct ℕ_discrete id p s.pending v.pending_once;
    apart = λ j. ground (arith, v.apart j, get-set ℕ_discrete id j p s.pending);
  }

  -- A request from a client that has no slot and waits for none keeps a valid pool valid.
  pub acquire-IsValid :
      (s : Slots C) (id pid : ℕ) (cb : C)
      → IsValid s
      → IsFree s id
      → IsValid (acquire s id pid cb).0
  unfolding acquire
  acquire-IsValid s id pid cb v free = elim (Bool-cases (ltb (length s.used) s.count)) [
    | inl room ↦ rw room (occupy-IsValid s id pid v (ltb→lt _ _ room))
    | inr full ↦
        rw full
          (enqueue-IsValid s id (record { cb = cb; pid = pid }) v free (ground (arith, v.bounded)))
  ]

  -- After a slot came back: one is free, or nobody waits.
  pub record HasRoom (s : Slots C) : Type 0 where
    pub bounded : length s.used < s.count
    pub nearly : (s.pending ≡ []) ⊎ (length s.used + 1 ≡ s.count)
    pub used_once : IsDistinct ℕ_discrete s.used
    pub pending_once : IsDistinct ℕ_discrete s.pending
    pub apart : (id : ℕ) → (get ℕ_discrete id s.used ≡ none) ⊎ (get ℕ_discrete id s.pending ≡ none)

  -- The first request that waits comes from a client with no slot.
  pub waiting_idle :
      (s : Slots C) {id : ℕ} {p : MapData C} {rest : OrderedMap ℕ (MapData C)}
      → s.pending ≡ (id, p) ∷ rest
      → HasRoom s
      → get ℕ_discrete id s.used ≡ none
  waiting_idle s {id} {p} {rest} e h =
      ground (arith, h.apart id, get-cons_self ℕ_discrete id p rest, ap (get ℕ_discrete id) e)

  serve_first-IsValid :
      (s : Slots C) (q : OrderedMap ℕ (MapData C))
      → s.pending ≡ q
      → HasRoom s
      → IsValid (serve_first s q).0
  unfolding serve_first
  serve_first-IsValid s [] e h = record {
    bounded = omega (arith, h.bounded);
    busy = inl e;
    used_once = h.used_once;
    pending_once = h.pending_once;
    apart = h.apart;
  }
  serve_first-IsValid s ((id, p) ∷ rest) e h =
      let idle = waiting_idle s e h in
      let longer = length-set_new ℕ_discrete id p.pid s.used idle in
      record {
        bounded = omega (arith, longer, h.bounded);
        busy = inr (ground (arith, longer, h.nearly));
        used_once = set-IsDistinct ℕ_discrete id p.pid s.used h.used_once;
        pending_once = delete-IsDistinct ℕ_discrete id s.pending h.pending_once;
        apart = λ j. ground (
          arith,
          h.apart j,
          get-set ℕ_discrete id j p.pid s.used,
          get-delete ℕ_discrete id j s.pending,
        );
      }

  -- The pool that `release` leaves behind when the client `id` held a slot, before the next request
  -- is served, and what it returns from there.
  abbrev pub freed : Slots C → ℕ → Slots C
  freed s id = record s {
    pending = delete ℕ_discrete id s.pending;
    used = delete ℕ_discrete id s.used;
  }

  abbrev pub handed_on : Slots C → Slots C × List (Event C)
  handed_on s = ((serve_first s s.pending).0, (serve_first s s.pending).1 ++ changed ∷ [])

  release_used_done : (s : Slots C) → HasRoom s → release_used s ≡ done (handed_on s)
  unfolding release_used
  release_used_done s h = ground (arith, h.bounded, h.nearly)

  pub freed-HasRoom :
      (s : Slots C) (id pid : ℕ)
      → IsValid s
      → get ℕ_discrete id s.used ≡ some pid
      → HasRoom (freed s id)
  unfolding delete
  freed-HasRoom s id pid v e =
      let shorter = length-delete ℕ_discrete id pid s.used v.used_once e in
      record {
        bounded = omega (arith, shorter, v.bounded);
        nearly = ground (arith, shorter, v.busy);
        used_once = delete-IsDistinct ℕ_discrete id s.used v.used_once;
        pending_once = delete-IsDistinct ℕ_discrete id s.pending v.pending_once;
        apart = λ j. ground (
          arith,
          v.apart j,
          get-delete ℕ_discrete id j s.used,
          get-delete ℕ_discrete id j s.pending,
        );
      }

  withdraw-IsValid :
      (s : Slots C) (id : ℕ)
      → IsValid s
      → IsValid (record s { pending = delete ℕ_discrete id s.pending })
  unfolding delete
  withdraw-IsValid s id v = record {
    bounded = v.bounded;
    busy = ground (arith, v.busy);
    used_once = v.used_once;
    pending_once = delete-IsDistinct ℕ_discrete id s.pending v.pending_once;
    apart = λ j. ground (arith, v.apart j, get-delete ℕ_discrete id j s.pending);
  }

  -- In a valid pool no `assert` of `release` throws, whatever client it is called for, and the pool
  -- stays valid.
  pub release-IsValid :
      (s : Slots C) (id : ℕ)
      → IsValid s
      → (r : Slots C × List (Event C)) × (release s id ≡ done r) × IsValid r.0
  unfolding release
  release-IsValid s id v = elim (Option-cases (get ℕ_discrete id s.used)) [
    | inl e ↦
        ((record s { pending = delete ℕ_discrete id s.pending }, []), rw e, withdraw-IsValid s id v)
    | inr (pid, e) ↦
        let room = freed-HasRoom s id pid v e in
        (
          handed_on (freed s id),
          rw e (release_used_done (freed s id) room),
          serve_first-IsValid (freed s id) (freed s id).pending refl room,
        )
  ]

  -- What `release` returns for a client that holds a slot, and for one that does not.
  pub release_held :
      (s : Slots C) (id pid : ℕ)
      → IsValid s
      → get ℕ_discrete id s.used ≡ some pid
      → release s id ≡ done (handed_on (freed s id))
  unfolding release
  release_held s id pid v e = rw e (release_used_done (freed s id) (freed-HasRoom s id pid v e))

  pub release_not_held :
      (s : Slots C) (id : ℕ)
      → get ℕ_discrete id s.used ≡ none
      → release s id ≡ done (record s { pending = delete ℕ_discrete id s.pending }, [])
  unfolding release
  release_not_held s id e = rw e
