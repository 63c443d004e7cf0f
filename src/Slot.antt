-- ===== src/Slot.antt =====
-- Inventory slots: src/chunkymonkey/gamerules/slot.go, with the item types of itemtype.go.
-- Every integer field is the bit pattern of its machine type: `ItemTypeId` and `ItemData` are
-- int16, `ItemCount` is int8. A method on `*Slot` with a second slot as its argument returns both
-- slots as it leaves them. The global table `Items` is an argument.
pub mod Swap
pub mod Stock
pub mod Pour
pub mod Moves
pub mod Tests
use chunkymonkey.Base.{
  ℕ, ◌+◌, ◌-◌, ◌/◌, ◌%◌, Bool, true, false, not, ◌&&◌, ◌||◌, Option, none, some, ◌==◌, bit_xor,
  if◌then◌else◌,
}
use chunkymonkey.Base.Words.{u8, lt8, le8}
use Prim.Native.String.{String}

pub record ItemType : Type 0 where
  pub id : ℕ
  pub name : String
  pub max_stack : ℕ
  pub tool_type : ℕ
  pub tool_uses : ℕ

abbrev pub ItemTypeMap : Type 0
ItemTypeMap = ℕ → Option ItemType

abbrev pub max_stack_default : ℕ
max_stack_default = 64

pub record Slot : Type 0 where
  pub item_type_id : ℕ
  pub count : ℕ
  pub item_data : ℕ

abbrev pub empty_slot : Slot
empty_slot = record { item_type_id = 0; count = 0; item_data = 0 }

-- `Clear` leaves the zero slot, whatever was there.
unfoldable pub clear : Slot → Slot
clear s = record s { item_type_id = 0; count = 0; item_data = 0 }

unfoldable pub equals : Slot → Slot → Bool
equals s other =
    (s.item_type_id == other.item_type_id)
    && (s.count == other.count)
    && (s.item_data == other.item_data)

unfoldable pub is_same_type : Slot → Slot → Bool
is_same_type s other = (s.item_type_id == other.item_type_id) && (s.item_data == other.item_data)

unfoldable pub is_valid_type : ItemTypeMap → Slot → Bool
is_valid_type items s = elim (items s.item_type_id) [ none ↦ false | some t ↦ true ]

unfoldable pub is_empty : Slot → Bool
is_empty s = (s.count == 0) || (s.item_type_id == 0)

unfoldable pub is_compatible : Slot → Slot → Bool
unfolding is_empty is_same_type
is_compatible s other = is_empty s || is_empty other || is_same_type s other

unfoldable pub max_stack : ItemTypeMap → Slot → ℕ
unfolding is_empty
max_stack items s =
    if is_empty s
    then max_stack_default
    else elim (items s.item_type_id) [ none ↦ 0 | some t ↦ t.max_stack ]

unfoldable pub normalize : Slot → Slot
normalize s =
    if (s.count == 0) || (s.item_type_id == 0) then record s { count = 0; item_type_id = 0 } else s

unfoldable pub set_count : Slot → ℕ → Slot
set_count s n =
    if n == 0
    then record s { count = n; item_type_id = 0; item_data = 0 }
    else record s { count = n }

-- The part of `Add` after its two early returns; `limit` is `maxStack`.
unfoldable pub transfer : ℕ → Slot → Slot → Slot × Slot × Bool
unfolding set_count
transfer limit s src =
    let moved =
      if lt8 limit (u8 (s.count + src.count)) then u8 (limit + 256 - s.count) else src.count in
    if moved == 0 then (record s { item_type_id = src.item_type_id }, src, false) else (
      set_count (record s { item_type_id = src.item_type_id; item_data = src.item_data })
          (u8 (s.count + moved)),
      set_count src (u8 (src.count + 256 - moved)),
      true,
    )

unfoldable pub add : ItemTypeMap → Slot → Slot → Slot × Slot × Bool
add items s src =
    if is_empty src || not (is_compatible s src)
    then (s, src, false)
    else if le8 (max_stack items src) s.count
    then (s, src, false)
    else transfer (max_stack items src) s src

unfoldable pub add_whole : ItemTypeMap → Slot → Slot → Slot × Slot × Bool
add_whole items s src =
    if is_empty src || not (is_compatible s src)
    then (s, src, false)
    else elim (items src.item_type_id) [
      | none ↦ (s, src, false)
      | some t ↦
          if lt8 t.max_stack (u8 (src.count + s.count)) then (s, src, false) else add items s src
    ]

-- `a ^= b; b ^= a; a ^= b`
unfoldable pub xor_swap : ℕ → ℕ → ℕ × ℕ
xor_swap a b = let a1 = bit_xor a b in let b1 = bit_xor b a1 in (bit_xor a1 b1, b1)

-- `Swap` exchanges each field by exclusive or, if the fields differ.
unfoldable pub swap : Slot → Slot → Slot × Slot × Bool
swap s src =
    let ids =
      if is_same_type s src
      then (s.item_type_id, src.item_type_id)
      else xor_swap s.item_type_id src.item_type_id in
    let counts =
      if s.count == src.count then (s.count, src.count) else xor_swap s.count src.count in
    let datas =
      if s.item_data == src.item_data
      then (s.item_data, src.item_data)
      else xor_swap s.item_data src.item_data in
    (
      record { item_type_id = ids.0; count = counts.0; item_data = datas.0 },
      record { item_type_id = ids.1; count = counts.1; item_data = datas.1 },
      not (is_same_type s src) || not (s.count == src.count) || not (s.item_data == src.item_data),
    )

-- `s.Count >> 1` is an arithmetic shift: a negative count keeps its sign.
unfoldable pub split : Slot → Slot → Slot × Slot × Bool
split s src =
    if is_empty s || not (is_empty src)
    then (s, src, false)
    else let half = (if lt8 s.count 0 then s.count / 2 + 128 else s.count / 2) in
      let odd = s.count % 2 in
      (
        set_count s half,
        set_count (record src { item_type_id = s.item_type_id; item_data = s.item_data })
            (u8 (half + odd)),
        true,
      )

unfoldable pub add_one : ItemTypeMap → Slot → Slot → Slot × Slot × Bool
add_one items s src =
    if is_empty src
    then (s, src, false)
    else if not (is_same_type s src) && not (is_empty s)
    then (s, src, false)
    else if le8 (max_stack items src) s.count
    then (s, src, false)
    else (
      record (set_count s (u8 (s.count + 1))) {
        item_type_id = src.item_type_id;
        item_data = src.item_data;
      },
      set_count src (u8 (src.count + 255)),
      true,
    )

unfoldable pub decrement : Slot → Slot × Bool
decrement s = if le8 s.count 0 then (s, false) else (set_count s (u8 (s.count + 255)), true)
