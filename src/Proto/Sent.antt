-- ===== src/Proto/Sent.antt =====
-- What each side may send: the bytes that a Write function of src/chunkymonkey/proto/proto.go makes of
-- arguments in their ranges, and the calls that the other side's handler should get. Packets that the
-- source does not write so that they can be read are left out: PaintingSpawn, EntityRemoveEffect,
-- BlockChangeMulti, UserListItem, PlayerBlockInteract with an item type below -1, ObjectSpawn with data
-- whose first field is 0, and metadata with an entry that is neither a number nor a string or that
-- begins like the end mark.
-- Strings are of at most 2 ^ 16 - 1 code points below 2 ^ 16.
pub mod Both
pub mod Clients
pub mod Entities
pub mod World
use chunkymonkey.Base.{ℕ, ◌%◌, ◌^◌, ◌<◌, ◌≡◌, ◌≢◌, List, [], ◌∷◌, if◌then◌else◌}
use chunkymonkey.Base.Words.{lt16}
use chunkymonkey.Proto.Wire.{InRange}
use chunkymonkey.Proto.Wire.ReadsBack.{IsString16}
use chunkymonkey.Proto.Event.{
  WindowSlot, window_slot, MetadataValue, EntityMetadata, byte_val, int16_val, int32_val, float_val,
  string_val,
}
use chunkymonkey.Proto.Metadata.{entry_type}

-- An entry whose value is of the kind that its first field tells, and not the end mark.
abbrev pub IsValue : ℕ → MetadataValue → Type 0
IsValue kind (byte_val b) = (kind ≡ 0) × (b < 256)
IsValue kind (int16_val n) = (kind ≡ 1) × (n < 2 ^ 16)
IsValue kind (int32_val n) = (kind ≡ 2) × (n < 2 ^ 32)
IsValue kind (float_val n) = (kind ≡ 3) × (n < 2 ^ 32)
IsValue kind (string_val s) = (kind ≡ 4) × IsString16 s
IsValue kind v = ⊥

abbrev pub IsEntry : EntityMetadata → Type 0
IsEntry item = IsValue item.field1 item.field3 × (entry_type item ≢ 127)

-- What is left of an entry: the reader loses the kind, and the high bits of the key.
abbrev pub without_kind : EntityMetadata → EntityMetadata
without_kind item = record { field1 = 0; field2 = item.field2 % 32; field3 = item.field3 }

abbrev pub IsWindowSlot : WindowSlot → Type 0
IsWindowSlot slot =
    InRange ((2, slot.item_type_id) ∷ []) × InRange ((1, slot.count) ∷ (2, slot.item_data) ∷ [])

-- The items as they are read: one of no positive type is the null item, with the count and data of
-- the item before it.
abbrev pub items_read : ℕ → ℕ → List WindowSlot → List WindowSlot
items_read count item_data [] = []
items_read count item_data (slot ∷ items) =
    if lt16 0 slot.item_type_id
    then slot ∷ items_read slot.count slot.item_data items
    else window_slot 0 count item_data ∷ items_read count item_data items
