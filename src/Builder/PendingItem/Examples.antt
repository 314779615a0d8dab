-- ===== src/Builder/PendingItem/Examples.antt =====
-- An object of two files, on a stream that takes every second write.
use fisk.Base.{ℕ, ◌%◌, ◌≡◌, refl, Bool, true, false, none, some, [], ◌∷◌, ◌==◌, arith}
use fisk.Builder.PendingItem.{
  PendingItem, write, write_all, create, end_drained, on_drain, end, add_item, drains,
}
use fisk.Builder.PendingItem.Drains.{InOrder, add_item-InOrder, add_item-ends}

abbrev accepts : ℕ → Bool
accepts n = n % 2 == 0

abbrev waiting_item : PendingItem ℕ
waiting_item = record {
  stream = 1 ∷ 2 ∷ [];
  buffer = some (3 ∷ []);
  end_cb = true;
  ended = false;
  callback = false;
  resolved = false;
}

waits : add_item {D = ℕ} accepts 1 2 (3 ∷ []) ≡ some waiting_item
unfolding add_item create write_all write end
waits = refl

-- The promise of `end` is resolved by the drain, before the stream reports its end.
resolved_by_drain :
    on_drain accepts waiting_item
    ≡ some (record {
      stream = 1 ∷ 2 ∷ 3 ∷ [];
      buffer = none;
      end_cb = true;
      ended = true;
      callback = false;
      resolved = true;
    })
unfolding on_drain write_all write end_drained
resolved_by_drain = refl

add_item-InOrder_example :
    (p : PendingItem ℕ) × (add_item accepts 1 2 (3 ∷ 4 ∷ []) ≡ some p)
    × InOrder accepts (drains accepts 1 p) (1 ∷ 2 ∷ 3 ∷ 4 ∷ [])
add_item-InOrder_example = add_item-InOrder accepts 1 2 (3 ∷ 4 ∷ []) 1

add_item-ends_example :
    (p : PendingItem ℕ) × (add_item accepts 1 2 (3 ∷ 4 ∷ []) ≡ some p)
    × ((drains accepts 4 p).stream ≡ 1 ∷ 2 ∷ 3 ∷ 4 ∷ [])
    × ((drains accepts 4 p).ended ≡ true)
add_item-ends_example = add_item-ends accepts 1 2 (3 ∷ 4 ∷ []) 4 (omega arith)
