-- ===== src/Window/Tests.antt =====
-- A window on two inventories, and the theorems at it.
use chunkymonkey.Base.{◌≡◌, refl, arith, [], ◌∷◌, length}
use chunkymonkey.Slot.{empty_slot}
use chunkymonkey.Slot.Tests.{table, doors}
use chunkymonkey.Inventory.{Inventory, Click, init, set_subscriber}
use chunkymonkey.Inventory
use chunkymonkey.Inventory.Tests.{shelf, click_at}
use chunkymonkey.Window.{
  IInventory, Window, init_views, init_window, click_window, finalize_views, relayed_slot,
}
use chunkymonkey.Window.Routing.{revealed, spliced, subscribed, local_click, click_window-spliced}

-- The inventories of Inventory.antt behind the interface.
abbrev plain : IInventory Inventory
plain = record {
  num_slots = λ inv. length inv.slots;
  click = Inventory.click table;
  set_subscriber = set_subscriber;
}

abbrev both : Window Inventory
both = init_window plain 1 0 (shelf ∷ shelf ∷ [])

six_slots : both.num_slots ≡ 6
unfolding init_window init_views
six_slots = refl

closed : finalize_views plain [] ≡ []
unfolding finalize_views
closed = refl

fifth : relayed_slot (record { inventory = shelf; start_slot = 3; end_slot = 6 }) 2 ≡ 5
unfolding relayed_slot
fifth = refl

click_window-spliced_example :
    revealed plain (
      click_window plain (init_window plain 1 0 (shelf ∷ shelf ∷ [])) (click_at 5 empty_slot doors))
    ≡ spliced plain
        (subscribed plain (shelf ∷ []))
        (subscribed plain [])
        (click_at 5 empty_slot doors)
        (local_click plain shelf (click_at 5 empty_slot doors) 3)
click_window-spliced_example =
    click_window-spliced plain 1 0 (shelf ∷ []) shelf [] (click_at 5 empty_slot doors) (omega arith)
      (omega arith) (omega arith)
