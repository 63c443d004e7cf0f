-- ===== src/Slot/Tests.antt =====
-- Concrete slots, tests of the slot operations, and the theorems at these slots.
use chunkymonkey.Base.{ℕ, ◌≡◌, refl, not, true, false, none, some, arith, ◌==◌, if◌then◌else◌}
use Prim.Native.Nat.{min}
use chunkymonkey.Slot.{
  Slot, ItemType, ItemTypeMap, empty_slot, is_empty, is_compatible, is_same_type, max_stack,
  set_count, transfer, equals, add, add_whole, add_one, swap, xor_swap, split, decrement, clear,
  normalize, is_valid_type,
}
use chunkymonkey.Slot.Stock.{IsTable}
use chunkymonkey.Slot.Pour.{pour, fit, add_lem, add_whole_lem, add_one_lem, split_lem}
use chunkymonkey.Slot.Swap.{swap_lem}

-- Planks stack to 64, doors do not stack.
abbrev pub planks : ItemType
planks = record { id = 5; name = "planks"; max_stack = 64; tool_type = 0; tool_uses = 0 }

abbrev pub door : ItemType
door = record { id = 324; name = "door"; max_stack = 1; tool_type = 0; tool_uses = 0 }

abbrev pub table : ItemTypeMap
table i = if i == 5 then some planks else if i == 324 then some door else none

pub table-IsTable : IsTable table
table-IsTable i t e = ground arith

abbrev pub stack : ℕ → Slot
stack n = record { item_type_id = 5; count = n; item_data = 0 }

abbrev pub doors : Slot
doors = record { item_type_id = 324; count = 1; item_data = 0 }

-- Fifty planks take fourteen of twenty.
add_overflowing : add table (stack 50) (stack 20) ≡ (stack 64, stack 6, true)
unfolding add is_empty is_compatible is_same_type max_stack transfer set_count
add_overflowing = refl

add_whole_refuses : add_whole table (stack 50) (stack 20) ≡ (stack 50, stack 20, false)
unfolding add_whole is_empty is_compatible is_same_type
add_whole_refuses = refl

swap_kinds : swap (stack 3) doors ≡ (doors, stack 3, true)
unfolding swap is_same_type xor_swap
swap_kinds = refl

split_odd : split (stack 7) empty_slot ≡ (stack 3, stack 4, true)
unfolding split is_empty set_count
split_odd = refl

decrement_last : decrement (stack 1) ≡ (empty_slot, true)
unfolding decrement set_count
decrement_last = refl

normalize_stray : normalize (stack 0) ≡ clear (stack 7)
unfolding normalize clear
normalize_stray = refl

planks_known : is_valid_type table (stack 2) ≡ true
unfolding is_valid_type
planks_known = refl

add_lem_example :
    add table (stack 50) (stack 20) ≡ pour (stack 50) (stack 20) (fit table (stack 50) (stack 20))
add_lem_example = add_lem table (stack 50) (stack 20) table-IsTable (omega arith) (omega arith)

add_whole_lem_example :
    add_whole table (stack 50) (stack 20)
    ≡ pour (stack 50) (stack 20) (if fit table (stack 50) (stack 20) == 20 then 20 else 0)
add_whole_lem_example =
    add_whole_lem table (stack 50) (stack 20) table-IsTable (omega arith) (omega arith)

add_one_lem_example :
    add_one table (stack 63) (stack 2)
    ≡ pour (stack 63) (stack 2) (min 1 (fit table (stack 63) (stack 2)))
add_one_lem_example =
    add_one_lem table (stack 63) (stack 2) table-IsTable (omega arith) (omega arith)

split_lem_example : split (stack 7) empty_slot ≡ (stack 3, stack 4, true)
unfolding is_empty
split_lem_example = split_lem (stack 7) empty_slot (omega arith) (omega arith)

swap_lem_example : swap (stack 3) doors ≡ (doors, stack 3, not (equals (stack 3) doors))
swap_lem_example = swap_lem (stack 3) doors
