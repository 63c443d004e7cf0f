-- ===== src/Slot/Stock.antt =====
-- What a slot holds, and which slots are well formed.
use chunkymonkey.Base.{ℕ, ◌^◌, ◌≤◌, ◌<◌, ◌≡◌, ◌&&◌, some, ◌==◌, if◌then◌else◌}
use chunkymonkey.Slot.{Slot, ItemType, ItemTypeMap, max_stack_default}

-- The number of items of one type and data value in a slot.
abbrev pub amount : ℕ → ℕ → Slot → ℕ
amount t d s = if (s.item_type_id == t) && (s.item_data == d) then s.count else 0

-- A slot that the game can hold: fields in the range of their types, no more than a default stack,
-- and no items of the type 0, which stands for "nothing".
pub record IsStock (s : Slot) : Type 0 where
  pub id_range : s.item_type_id < 2 ^ 16
  pub data_range : s.item_data < 2 ^ 16
  pub small : s.count ≤ max_stack_default
  pub typed : s.item_type_id ≡ 0 → s.count ≡ 0

-- No item type stacks beyond the default.
abbrev pub IsTable : ItemTypeMap → Type 0
IsTable items = (i : ℕ) (t : ItemType) → items i ≡ some t → t.max_stack ≤ max_stack_default
