-- ===== src/Crafting.antt =====
-- Crafting inventories: src/chunkymonkey/gamerules/inv_crafting.go. Slot 0 is the output and the rest
-- the grid. The recipes, a global of the program, are an argument; `none` is a run-time panic.
pub mod Clicks
pub mod Emptying
mod Tests
use chunkymonkey.Base.{
  ℕ, suc, ◌+◌, ◌*◌, Bool, true, false, Option, none, some, List, [], ◌∷◌, ◌++◌, ◌==◌, if◌then◌else◌,
}
use chunkymonkey.Base.Words.{u16}
use chunkymonkey.Slot.{Slot, ItemTypeMap, empty_slot, decrement, clear}
use chunkymonkey.Inventory.{
  Inventory, Click, TxState, accepted, rejected, deferred, Update, slot_update, init, notify, store,
}
use chunkymonkey.Inventory
use chunkymonkey.Recipe.{RecipeSet, match_recipe}

pub record CraftingInventory : Type 0 where
  pub inventory : Inventory
  pub width : ℕ
  pub height : ℕ

unfoldable pub init_crafting : ℕ → ℕ → CraftingInventory
init_crafting width height = record {
  inventory = init (1 + width * height);
  width = width;
  height = height;
}

-- `InitPlayerCraftingInventory` and `NewWorkbenchInventory`
unfoldable pub player_crafting_inventory : CraftingInventory
player_crafting_inventory = init_crafting 2 2

unfoldable pub new_workbench_inventory : CraftingInventory
new_workbench_inventory = init_crafting 3 3

-- The loop over the input slots, from index `i` on: the slots and the updates.
unfoldable pub use_inputs : ℕ → List Slot → List Slot × List Update
use_inputs i [] = ([], [])
use_inputs i (s ∷ ss) =
    let (rest, us) = use_inputs (i + 1) ss in
    ((decrement s).0 ∷ rest, slot_update (decrement s).0 (u16 i) ∷ us)

-- Subtract one from each input, if the output was clicked.
unfoldable pub consume : Bool → Inventory → Inventory
consume false inv = inv
consume true inv = elim inv.slots [
  | [] ↦ inv
  | output ∷ inputs ↦
      let (rest, us) = use_inputs 1 inputs in notify (record inv { slots = output ∷ rest }) us
]

-- What the recipes make of the input slots.
abbrev pub grid_match : RecipeSet → CraftingInventory → List Slot → Option Slot
grid_match recipes ci [] = none
grid_match recipes ci (output ∷ inputs) = match_recipe recipes ci.width ci.height inputs

-- Match the recipe and set the output slot.
unfoldable pub set_output : RecipeSet → CraftingInventory → Inventory → Option CraftingInventory
set_output recipes ci inv = elim (grid_match recipes ci inv.slots) [
  | none ↦ none
  | some made ↦ some (record ci { inventory = store inv 0 made })
]

abbrev pub is_rejected : TxState → Bool
is_rejected accepted = false
is_rejected rejected = true
is_rejected deferred = false

-- `Click` after the click of the inventory itself.
unfoldable pub resume :
    RecipeSet
    → CraftingInventory
    → Bool
    → Option (Inventory × Click × TxState)
    → Option (CraftingInventory × Click × TxState)
resume recipes ci on_output none = none
resume recipes ci on_output (some (inv, c, tx)) =
    if is_rejected tx
    then some (record ci { inventory = inv }, c, tx)
    else elim (set_output recipes ci (consume on_output inv)) [
      | none ↦ none
      | some ci' ↦ some (ci', c, tx)
    ]

unfoldable pub click :
    ItemTypeMap
    → RecipeSet
    → CraftingInventory
    → Click
    → Option (CraftingInventory × Click × TxState)
click items recipes ci c =
    let on_output = c.slot_id == 0 in
    resume recipes ci on_output (
      if on_output
      then Inventory.take_only_click items ci.inventory c
      else Inventory.click items ci.inventory c)

-- `TakeAllItems`, which clears the output, the first of the slots, before it takes the rest.
unfoldable pub discard_and_take :
    CraftingInventory → List Slot → Option (CraftingInventory × List Slot)
discard_and_take ci [] = none
discard_and_take ci (output ∷ inputs) =
    elim (Inventory.take_all_items (store ci.inventory 0 (clear output))) [
      | none ↦ none
      | some (inv, taken) ↦ some (record ci { inventory = inv }, taken)
    ]

unfoldable pub take_all_items : CraftingInventory → Option (CraftingInventory × List Slot)
take_all_items ci = discard_and_take ci ci.inventory.slots
