-- ===== src/Inventory/Tests.antt =====
-- Concrete inventories, and the theorems at them.
use chunkymonkey.Base.{ℕ, ◌≡◌, refl, ◌↔◌, true, false, none, [], ◌∷◌, arith, ltb}
use chunkymonkey.Slot.{Slot, empty_slot}
use chunkymonkey.Slot.Tests.{table, table-IsTable, stack, doors}
use chunkymonkey.Inventory.{
  Inventory, Click, init, set_subscriber, click, take_only_click, put_item, can_take_item,
  take_all_items,
}
use chunkymonkey.Inventory.Clicks.{Acts, click-Acts, take_only_click-Acts, click_faults, Keeps}
use chunkymonkey.Inventory.Storing.{put_item-Keeps, put_item_greedy, Shrinks}
use chunkymonkey.Inventory.Emptying.{TakesAll, take_all_items-TakesAll}
use chunkymonkey.Inventory.Mirror.{
  IsSynced, SyncedAfter, SyncedTaken, click-IsSynced, put_item-IsSynced, take_all_items-IsSynced,
}

-- A watched inventory of three slots.
abbrev pub shelf : Inventory
shelf = record { slots = stack 60 ∷ empty_slot ∷ doors ∷ []; has_subscriber = true; sent = [] }

abbrev pub click_at : ℕ → Slot → Slot → Click
click_at i cursor expected = record {
  slot_id = i;
  cursor = cursor;
  right_click = false;
  shift_click = false;
  tx_id = 1;
  expected_slot = expected;
}

new_inventory :
    init 2 ≡ record { slots = empty_slot ∷ empty_slot ∷ []; has_subscriber = false; sent = [] }
unfolding init
new_inventory = refl

watched : (set_subscriber (init 2) true).has_subscriber ≡ true
unfolding set_subscriber
watched = refl

click-Acts_example :
    Acts shelf
      (click_at 0 (stack 20) (stack 60))
      (click table shelf (click_at 0 (stack 20) (stack 60)))
click-Acts_example =
    click-Acts table shelf (click_at 0 (stack 20) (stack 60)) table-IsTable (omega arith)
      (omega arith)

take_only_click-Acts_example :
    Acts shelf
      (click_at 2 empty_slot doors)
      (take_only_click table shelf (click_at 2 empty_slot doors))
take_only_click-Acts_example =
    take_only_click-Acts table shelf (click_at 2 empty_slot doors) table-IsTable (omega arith)
      (omega arith)

click_faults_example :
    (click table shelf (click_at 3 empty_slot empty_slot) ≡ none) ↔ (◌≡◌ {A = ℕ} 3 3)
click_faults_example =
    click_faults table shelf (click_at 3 empty_slot empty_slot) (omega arith) (omega arith)

put_item-Keeps_example :
    let r = put_item table shelf (stack 20) in Keeps shelf.slots (stack 20) r.0.slots r.1
put_item-Keeps_example =
    put_item-Keeps table table-IsTable shelf (stack 20) (omega arith) (omega arith)

put_item_greedy_example :
    let r = put_item table shelf (stack 20) in
    (can_take_item table shelf (stack 20) ≡ ltb r.1.count 20)
    × (can_take_item table r.0 r.1 ≡ false)
    × Shrinks (stack 20) r.1
put_item_greedy_example =
    put_item_greedy table table-IsTable shelf (stack 20) (omega arith) (omega arith)

take_all_items-TakesAll_example : TakesAll shelf (take_all_items shelf)
take_all_items-TakesAll_example = take_all_items-TakesAll shelf (omega arith)

click-IsSynced_example :
    let c = click_at 0 (stack 20) (stack 60) in
    SyncedAfter shelf.slots (click table shelf c)
    × SyncedAfter shelf.slots (take_only_click table shelf c)
click-IsSynced_example =
    click-IsSynced table shelf.slots shelf (click_at 0 (stack 20) (stack 60)) (λ _. refl)

put_item-IsSynced_example : IsSynced shelf.slots (put_item table shelf (stack 20)).0
put_item-IsSynced_example =
    put_item-IsSynced table table-IsTable shelf.slots shelf (stack 20) (omega arith) (omega arith)
      (omega arith) (λ _. refl)

take_all_items-IsSynced_example : SyncedTaken shelf.slots (take_all_items shelf)
take_all_items-IsSynced_example =
    take_all_items-IsSynced shelf.slots shelf (omega arith) (λ _. refl)
