-- ===== src/Proto/Metadata.antt =====
-- The metadata of entities in src/chunkymonkey/proto/proto.go. In the entry's type byte, the kind of
-- the value takes the high three bits and the key the low five.
pub mod ReadsBack
use chunkymonkey.Base.{
  ℕ, zero, suc, ◌+◌, ◌*◌, ◌/◌, ◌%◌, Bool, true, false, Option, none, some, List, [], ◌∷◌, ◌++◌,
  length, ltb, ◌==◌, if◌then◌else◌,
}
use chunkymonkey.Proto.Wire.{
  Bytes, Received, received, failed, out_of_fuel, put_fields, write_string16, read_with,
  read_string16,
}
use chunkymonkey.Proto.Event.{
  EntityMetadata, MetadataValue, nil, byte_val, int16_val, int32_val, float_val, string_val,
  position_val,
}

-- What was written before, and then this; `none` is a panic.
abbrev pub then_write : Option Bytes → Option Bytes → Option Bytes
then_write (some before) (some after) = some (before ++ after)
then_write (some before) none = none
then_write none after = none

-- The value after the type byte; `none` is the panic of a failed type assertion. No caller can make a
-- value of the local type `position` of the source, so kind 5 always fails. Kinds above have none.
abbrev pub write_metadata_value : ℕ → MetadataValue → Option Bytes
write_metadata_value kind (byte_val b) =
    if kind == 0 then some (put_fields ((1, b) ∷ [])) else if ltb 5 kind then some [] else none
write_metadata_value kind (int16_val n) =
    if kind == 1 then some (put_fields ((2, n) ∷ [])) else if ltb 5 kind then some [] else none
write_metadata_value kind (int32_val n) =
    if kind == 2 then some (put_fields ((4, n) ∷ [])) else if ltb 5 kind then some [] else none
write_metadata_value kind (float_val n) =
    if kind == 3 then some (put_fields ((4, n) ∷ [])) else if ltb 5 kind then some [] else none
write_metadata_value kind (string_val s) =
    if kind == 4 then some (write_string16 s) else if ltb 5 kind then some [] else none
write_metadata_value kind v = if ltb 5 kind then some [] else none

abbrev pub entry_type : EntityMetadata → ℕ
entry_type item = item.field1 % 8 * 32 + item.field2 % 32

unfoldable pub write_entity_metadata_field : List EntityMetadata → Option Bytes
write_entity_metadata_field [] = some (127 ∷ [])
write_entity_metadata_field (item ∷ items) =
    then_write (some (entry_type item ∷ [])) (
      then_write (write_metadata_value item.field1 item.field3) (write_entity_metadata_field items))

-- The switch declares a `field1` of its own, so that of every entry read stays 0.
abbrev pub entry_read : ℕ → MetadataValue → EntityMetadata
entry_read entry field3 = record { field1 = 0; field2 = entry % 32; field3 = field3 }

module _ {ℓ} {E : Type ℓ} where
  -- The value of the given kind; without one, `field3` keeps what it held.
  unfoldable pub read_metadata_value :
      ℕ → MetadataValue → (MetadataValue → Bytes → Received E) → Bytes → Received E
  read_metadata_value kind field3 k =
      if kind == 0
      then read_with (1 ∷ []) (λ b. k (byte_val b))
      else if kind == 1
      then read_with (2 ∷ []) (λ n. k (int16_val n))
      else if kind == 2
      then read_with (4 ∷ []) (λ n. k (int32_val n))
      else if kind == 3
      then read_with (4 ∷ []) (λ n. k (float_val n))
      else if kind == 4
      then read_string16 (λ s. k (string_val s))
      else if kind == 5
      then read_with (2 ∷ 1 ∷ 2 ∷ []) (λ x y z. k (position_val x y z))
      else k field3

  unfoldable pub read_metadata_loop :
      ℕ
      → MetadataValue
      → List EntityMetadata
      → (List EntityMetadata → Bytes → Received E)
      → Bytes
      → Received E
  read_metadata_loop zero field3 items k bs = failed [] out_of_fuel
  read_metadata_loop (suc fuel) field3 items k bs =
      read_with (1 ∷ [])
        (λ entry.
          if entry == 127
          then k items
          else read_metadata_value (entry / 32) field3
              (λ v. read_metadata_loop fuel v (items ++ (entry_read entry v ∷ [])) k))
        bs

  -- Every entry takes a byte at least.
  unfoldable pub read_entity_metadata_field :
      (List EntityMetadata → Bytes → Received E) → Bytes → Received E
  read_entity_metadata_field k bs = read_metadata_loop (suc (length bs)) nil [] k bs
