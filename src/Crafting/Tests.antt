-- ===== src/Crafting/Tests.antt =====
-- A concrete crafting inventory, and the theorems at it.
use chunkymonkey.Base.{◌≡◌, refl, arith, true, [], ◌∷◌}
use chunkymonkey.Slot.{empty_slot}
use chunkymonkey.Slot.Tests.{table, doors}
use chunkymonkey.Inventory.Tests.{click_at}
use chunkymonkey.Recipe.{init_recipes}
use chunkymonkey.Recipe.Tests.{book, grid}
use chunkymonkey.Crafting.{
  CraftingInventory, init_crafting, player_crafting_inventory, new_workbench_inventory, click,
  take_all_items,
}
use chunkymonkey.Crafting.Clicks.{Crafts, click-Crafts}
use chunkymonkey.Crafting.Emptying.{TakesInputs, take_all_items-TakesInputs}

abbrev bench : CraftingInventory
bench = record {
  inventory = record { slots = doors ∷ grid; has_subscriber = true; sent = [] };
  width = 2;
  height = 2;
}

sizes : (player_crafting_inventory.width ≡ 2) × (new_workbench_inventory.height ≡ 3)
unfolding player_crafting_inventory new_workbench_inventory init_crafting
sizes = (refl, refl)

click-Crafts_example :
    Crafts table
      (init_recipes book)
      bench
      (click_at 0 empty_slot doors)
      doors
      grid
      (click table (init_recipes book) bench (click_at 0 empty_slot doors))
click-Crafts_example =
    click-Crafts table book (refl, tt) bench (click_at 0 empty_slot doors) doors grid refl
      (omega arith) (omega arith) (omega arith) (omega arith)

take_all_items-TakesInputs_example : TakesInputs grid (take_all_items bench)
take_all_items-TakesInputs_example = take_all_items-TakesInputs bench doors grid refl (omega arith)
