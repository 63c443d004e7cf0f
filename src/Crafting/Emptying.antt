-- ===== src/Crafting/Emptying.antt =====
-- Emptying a crafting inventory (src/chunkymonkey/gamerules/inv_crafting.go: TakeAllItems).
use chunkymonkey.Base.{
  ℕ, ◌<◌, ◌≡◌, sym, ap, subst, ◌∙◌, arith, Option, none, some, List, [], ◌∷◌, All, set,
}
use chunkymonkey.Slot.{Slot, empty_slot, clear}
use chunkymonkey.Inventory.{Inventory, store}
use chunkymonkey.Inventory.Held.{held, AllStock}
use chunkymonkey.Inventory.Clicks.{slots-store}
use chunkymonkey.Inventory.Emptying.{TakesAll, take_all_items-TakesAll}
use chunkymonkey.Crafting.{CraftingInventory, discard_and_take, take_all_items}

-- The grid is taken, and the output is discarded.
abbrev pub TakesInputs : List Slot → Option (CraftingInventory × List Slot) → Type 0
TakesInputs inputs none = ⊥
TakesInputs inputs (some (ci, taken)) =
    All (λ s. s.count ≡ 0) ci.inventory.slots
    × ((t d : ℕ) → held t d taken ≡ held t d inputs)
    × All (λ s. 0 < s.count) taken

cleared_slots :
    (inv : Inventory) (output : Slot) (inputs : List Slot)
    → inv.slots ≡ output ∷ inputs
    → (store inv 0 (clear output)).slots ≡ empty_slot ∷ inputs
unfolding clear
cleared_slots inv output inputs e = slots-store inv 0 _ ∙ ap (λ xs. set xs 0 empty_slot) e

from_inventory :
    (ci : CraftingInventory) (inv : Inventory) (inputs : List Slot)
    (r : Option (Inventory × List Slot))
    → inv.slots ≡ empty_slot ∷ inputs
    → TakesAll inv r
    → TakesInputs inputs
        (elim r [ none ↦ none | some (inv', taken) ↦ some (record ci { inventory = inv' }, taken) ])
from_inventory ci inv inputs none e h = apart (sym h ∙ e)
  where
    apart : ¬ ([] ≡ empty_slot ∷ inputs)
    apart q = cc
from_inventory ci inv inputs (some (inv', taken)) e (empty, size, all, full) =
    (empty, λ t d. ground (arith, all t d ∙ ap (held t d) e), full)

-- From well-formed slots, an output and a grid, `TakeAllItems` does not panic, leaves a count of 0 in
-- every slot and returns exactly the items of the grid, without empty stacks: the output is lost.
pub take_all_items-TakesInputs :
    (ci : CraftingInventory) (output : Slot) (inputs : List Slot)
    → ci.inventory.slots ≡ output ∷ inputs
    → AllStock inputs
    → TakesInputs inputs (take_all_items ci)
unfolding take_all_items discard_and_take
take_all_items-TakesInputs ci output inputs e v =
    let inv = store ci.inventory 0 (clear output) in
    let cleared = cleared_slots ci.inventory output inputs e in
    let stock : AllStock inv.slots = rw cleared (omega arith, v) in
    let taken = from_inventory ci inv inputs _ cleared (take_all_items-TakesAll inv stock) in
    subst (λ xs. TakesInputs inputs (discard_and_take ci xs)) (sym e) taken
