-- ===== src/Builder/PendingItem/Drains.antt =====
-- What the drains of a stream leave of the data of a cache file.
use fisk.Base.{
  ℕ, zero, suc, ◌+◌, ◌<◌, ◌≤◌, ◌≡◌, refl, sym, ap, subst, ◌∙◌, ◌⊎◌, inl, inr, Bool, true, false,
  Option, none, some, List, [], ◌∷◌, ◌++◌, length, append-nil, append_assoc, Bool-cases, arith,
}
use mathlib.Core.Bool.{true≢false}
use fisk.Builder.PendingItem.{
  PendingItem, write, write_all, create, end_drained, on_drain, end, add_item, drains,
}

module _ {D : Type 0} (accepts : ℕ → Bool) where
  -- An item that was not ended yet.
  unfoldable item : Bool → List D → Option (List D) → PendingItem D
  item end_cb stream buffer = record {
    stream = stream;
    buffer = buffer;
    end_cb = end_cb;
    ended = false;
    callback = false;
    resolved = false;
  }

  -- An item that the last drain ended.
  unfoldable finished : List D → PendingItem D
  finished stream = record {
    stream = stream;
    buffer = none;
    end_cb = true;
    ended = true;
    callback = false;
    resolved = true;
  }

  -- What waits for a drain.
  abbrev pub waiting : PendingItem D → List D
  waiting p = elim p.buffer [ none ↦ [] | some b ↦ b ]

  write_all-held :
      (c : Bool) (s b ds : List D)
      → write_all accepts (item c s (some b)) ds ≡ item c s (some (b ++ ds))
  unfolding write_all write item
  write_all-held c s b [] = rw (append-nil b) refl
  write_all-held c s b (d ∷ ds) =
      write_all-held c s (b ++ d ∷ []) ds ∙ ap (λ x. item c s (some x)) (append_assoc b (d ∷ []) ds)

  -- Some of the data are written, and the rest, which is less, waits.
  record Stops (c : Bool) (s ds : List D) : Type 0 where
    front : List D
    rest : List D
    split : ds ≡ front ++ rest
    less : length rest < length ds
    stops : write_all accepts (item c s none) ds ≡ item c (s ++ front) (some rest)

  write_all-cases :
      (c : Bool) (s ds : List D)
      → (write_all accepts (item c s none) ds ≡ item c (s ++ ds) none) ⊎ Stops c s ds
  unfolding write_all write item
  write_all-cases c s [] = inl (rw (append-nil s) refl)
  write_all-cases c s (d ∷ ds) = elim (Bool-cases (accepts (length s))) [
    | inl e ↦ elim (write_all-cases c (s ++ d ∷ []) ds) [
      | inl p ↦ inl (rw e (p ∙ ap (λ x. item c x none) (append_assoc s (d ∷ []) ds)))
      | inr w ↦ inr (record {
        front = d ∷ w.front;
        rest = w.rest;
        split = ap (◌∷◌ d) w.split;
        less = omega (arith, w.less);
        stops = rw e (w.stops ∙ ap (λ x. item c x (some w.rest)) (append_assoc s (d ∷ []) w.front));
      })
    ]
    | inr e ↦ inr (record {
      front = d ∷ [];
      rest = ds;
      split = refl;
      less = omega arith;
      stops = rw e (write_all-held c (s ++ d ∷ []) [] ds);
    })
  ]

  -- What is left of the data that wait, after a drain.
  record Left (s b : List D) : Type 0 where
    front : List D
    rest : List D
    split : b ≡ front ++ rest
    less : length rest < length b
    drained : on_drain accepts (item true s (some b)) ≡ some (item true (s ++ front) (some rest))

  drain-cases :
      (s b : List D)
      → (on_drain accepts (item true s (some b)) ≡ some (finished (s ++ b))) ⊎ Left s b
  unfolding on_drain end_drained item finished
  drain-cases s b = elim (write_all-cases true s b) [
    | inl p ↦ inl (ap (λ x. some (end_drained accepts x)) p)
    | inr w ↦ inr (record {
      front = w.front;
      rest = w.rest;
      split = w.split;
      less = w.less;
      drained = ap (λ x. some (end_drained accepts x)) w.stops;
    })
  ]

  drains-finished_id : (n : ℕ) (s : List D) → drains accepts n (finished s) ≡ finished s
  unfolding drains on_drain finished
  drains-finished_id zero s = refl
  drains-finished_id (suc n) s = refl

  -- As many drains as there are data that wait, and one more, write them all and end the item.
  drains-finished :
      (n : ℕ) (s b : List D)
      → length b < n
      → drains accepts n (item true s (some b)) ≡ finished (s ++ b)
  unfolding drains
  drains-finished zero s b h = absurd (omega (arith, h))
  drains-finished (suc n) s b h = elim (drain-cases s b) [
    | inl e ↦ rw (e, drains) (drains-finished_id n (s ++ b))
    | inr w ↦
        rw (w.drained, drains)
          (drains-finished n (s ++ w.front) w.rest (omega (arith, h, w.less))
            ∙ ap finished (append_assoc s w.front w.rest ∙ ap (λ x. s ++ x) (sym w.split)))
  ]

  -- What the stream has, and what waits, are the data in their order, and nothing waits at the end.
  pub record InOrder (p : PendingItem D) (data' : List D) : Type 0 where
    pub in_order : p.stream ++ waiting p ≡ data'
    pub at_end : p.ended ≡ true → waiting p ≡ []

  drains-suc :
      (n : ℕ) (p p' : PendingItem D)
      → on_drain accepts p ≡ some p'
      → drains accepts (suc n) p ≡ drains accepts n p'
  unfolding drains
  drains-suc n p p' e = rw (e, drains) refl

  item-InOrder : (s b : List D) → InOrder (item true s (some b)) (s ++ b)
  unfolding item
  item-InOrder s b = record { in_order = refl; at_end = λ e. absurd (true≢false (sym e)) }

  finished-InOrder : (ds : List D) → InOrder (finished ds) ds
  unfolding finished
  finished-InOrder ds = record { in_order = append-nil ds; at_end = λ e. refl }

  drains-InOrder :
      (n : ℕ) (s b : List D) → InOrder (drains accepts n (item true s (some b))) (s ++ b)
  unfolding drains
  drains-InOrder zero s b = item-InOrder s b
  drains-InOrder (suc n) s b = elim (drain-cases s b) [
    | inl e ↦
        subst (λ p. InOrder p (s ++ b))
          (sym (
            drains-suc n (item true s (some b)) (finished (s ++ b)) e
            ∙ drains-finished_id n (s ++ b)))
          (finished-InOrder (s ++ b))
    | inr w ↦
        subst (λ p. InOrder p (s ++ b))
          (sym (
            drains-suc n (item true s (some b)) (item true (s ++ w.front) (some w.rest)) w.drained))
          (subst (λ x. InOrder (drains accepts n (item true (s ++ w.front) (some w.rest))) x)
            (append_assoc s w.front w.rest ∙ ap (λ x. s ++ x) (sym w.split))
            (drains-InOrder n (s ++ w.front) w.rest))
  ]

  -- An item that `end` ends at once.
  unfoldable closed : List D → PendingItem D
  closed stream = record {
    stream = stream;
    buffer = none;
    end_cb = false;
    ended = true;
    callback = true;
    resolved = false;
  }

  drains-closed : (n : ℕ) (s : List D) → drains accepts n (closed s) ≡ closed s
  unfolding drains on_drain closed
  drains-closed zero s = refl
  drains-closed (suc n) s = refl

  -- An item with all its data, after `end`.
  record Added (h j : D) (contents : List D) : Type 0 where
    front : List D
    rest : List D
    split : h ∷ j ∷ contents ≡ front ++ rest
    less : length rest < length contents + 2
    added : add_item accepts h j contents ≡ some (item true front (some rest))

  add_item-cases :
      (h j : D) (contents : List D)
      → (add_item accepts h j contents ≡ some (closed (h ∷ j ∷ contents))) ⊎ Added h j contents
  unfolding add_item create write_all end item closed
  add_item-cases h j contents = elim (write_all-cases false [] (h ∷ j ∷ contents)) [
    | inl p ↦ inl (ap (end accepts) p)
    | inr w ↦ inr (record {
      front = w.front;
      rest = w.rest;
      split = w.split;
      less = omega (arith, w.less);
      added = ap (end accepts) w.stops;
    })
  ]

  -- ObjectCache.add gives the item its data and ends it, and however the stream takes them and after
  -- any number of its drains: what the stream has, followed by what waits for a drain, are the length of
  -- the JSON, the JSON and the contents in their order; and when the stream is ended nothing waits.
  pub add_item-InOrder :
      (h j : D) (contents : List D) (n : ℕ)
      → (p : PendingItem D) × (add_item accepts h j contents ≡ some p)
        × InOrder (drains accepts n p) (h ∷ j ∷ contents)
  unfolding closed
  add_item-InOrder h j contents n = elim (add_item-cases h j contents) [
    | inl e ↦ (
      closed (h ∷ j ∷ contents),
      e,
      subst (λ p. InOrder p (h ∷ j ∷ contents)) (sym (drains-closed n (h ∷ j ∷ contents)))
          (record { in_order = append-nil (h ∷ j ∷ contents); at_end = λ e. refl }),
    )
    | inr w ↦ (
      item true w.front (some w.rest),
      w.added,
      subst (λ x. InOrder (drains accepts n (item true w.front (some w.rest))) x) (sym w.split)
          (drains-InOrder n w.front w.rest),
    )
  ]

  -- After two drains more than there are contents, all is written and the stream is ended, however it
  -- takes the writes.
  pub add_item-ends :
      (h j : D) (contents : List D) (n : ℕ)
      → length contents + 2 ≤ n
      → (p : PendingItem D) × (add_item accepts h j contents ≡ some p)
        × ((drains accepts n p).stream ≡ h ∷ j ∷ contents)
        × ((drains accepts n p).ended ≡ true)
  unfolding closed finished
  add_item-ends h j contents n le = elim (add_item-cases h j contents) [
    | inl e ↦ (
      closed (h ∷ j ∷ contents),
      e,
      ap (λ p. p.stream) (drains-closed n (h ∷ j ∷ contents)),
      ap (λ p. p.ended) (drains-closed n (h ∷ j ∷ contents)),
    )
    | inr w ↦
        let done = drains-finished n w.front w.rest (omega (arith, le, w.less)) in
        (
          item true w.front (some w.rest),
          w.added,
          ap (λ p. p.stream) done ∙ sym w.split,
          ap (λ p. p.ended) done,
        )
  ]
