-- ===== src/Proto/Spawn.antt =====
-- Packets of src/chunkymonkey/proto/proto.go about entities that appear.
use chunkymonkey.Base.{ℕ, Bool, Option, none, some, List, [], ◌∷◌, ◌++◌, ◌==◌, if◌then◌else◌}
use chunkymonkey.Base.Words.{u8, sext8_32}
use chunkymonkey.Coords.{BlockXyz}
use chunkymonkey.Proto.Wire.{
  Bytes, Received, put_fields, write_string16, read_with, read_string16, received,
}
use chunkymonkey.Proto.Ids.{
  packet_id_named_entity_spawn, packet_id_item_spawn, packet_id_object_spawn,
  packet_id_entity_spawn, packet_id_experience_orb, packet_id_weather,
}
use chunkymonkey.Proto.Event.{
  AbsIntXyz, LookBytes, OrientationBytes, ObjectData, abs_int_xyz, look_bytes, orientation_bytes,
  block_xyz, EntityMetadata, Event, bool_to_byte, byte_to_bool, packet_named_entity_spawn,
  packet_item_spawn, packet_object_spawn, packet_entity_spawn, packet_painting_spawn,
  packet_experience_orb, packet_weather,
}
use chunkymonkey.Proto.Metadata.{
  then_write, write_entity_metadata_field, read_entity_metadata_field,
}

unfoldable pub write_item_spawn : ℕ → ℕ → ℕ → ℕ → AbsIntXyz → OrientationBytes → Bytes
write_item_spawn entity_id item_type_id amount item_data position orientation =
    packet_id_item_spawn
    ∷ put_fields (
        (4, entity_id)
        ∷ (2, item_type_id)
        ∷ (1, amount)
        ∷ (2, item_data)
        ∷ (4, position.x)
        ∷ (4, position.y)
        ∷ (4, position.z)
        ∷ (1, orientation.yaw)
        ∷ (1, orientation.pitch)
        ∷ (1, orientation.roll)
        ∷ [])

unfoldable pub read_item_spawn : Bytes → Received Event
read_item_spawn =
    read_with (4 ∷ 2 ∷ 1 ∷ 2 ∷ 4 ∷ 4 ∷ 4 ∷ 1 ∷ 1 ∷ 1 ∷ [])
      (λ entity_id item_type_id amount item_data x y z yaw pitch roll rest.
        received
          (packet_item_spawn entity_id item_type_id amount item_data (abs_int_xyz x y z)
              (orientation_bytes yaw pitch roll)
            ∷ [])
          rest)

unfoldable pub write_experience_orb : ℕ → AbsIntXyz → ℕ → Bytes
write_experience_orb entity_id position count =
    packet_id_experience_orb
    ∷ put_fields
        ((4, entity_id) ∷ (4, position.x) ∷ (4, position.y) ∷ (4, position.z) ∷ (2, count) ∷ [])

unfoldable pub read_experience_orb : Bytes → Received Event
read_experience_orb = read_with (4 ∷ 4 ∷ 4 ∷ 4 ∷ 2 ∷ []) (λ entity_id x y z count rest.
    received (packet_experience_orb entity_id (abs_int_xyz x y z) count ∷ []) rest)

unfoldable pub write_weather : ℕ → Bool → AbsIntXyz → Bytes
write_weather entity_id raining position =
    packet_id_weather
    ∷ put_fields (
        (4, entity_id)
        ∷ (1, bool_to_byte raining)
        ∷ (4, position.x)
        ∷ (4, position.y)
        ∷ (4, position.z)
        ∷ [])

unfoldable pub read_weather : Bytes → Received Event
read_weather = read_with (4 ∷ 1 ∷ 4 ∷ 4 ∷ 4 ∷ []) (λ entity_id raining x y z rest.
    received (packet_weather entity_id (byte_to_bool raining) (abs_int_xyz x y z) ∷ []) rest)

unfoldable pub write_named_entity_spawn : ℕ → List ℕ → AbsIntXyz → LookBytes → ℕ → Bytes
write_named_entity_spawn entity_id name position look current_item =
    packet_id_named_entity_spawn
    ∷ (put_fields ((4, entity_id) ∷ [])
        ++ (write_string16 name
            ++ put_fields (
                (4, position.x)
                ∷ (4, position.y)
                ∷ (4, position.z)
                ∷ (1, look.yaw)
                ∷ (1, look.pitch)
                ∷ (2, current_item)
                ∷ [])))

unfoldable pub read_named_entity_spawn : Bytes → Received Event
read_named_entity_spawn = read_with (4 ∷ []) (λ entity_id. read_string16 (λ name.
    read_with (4 ∷ 4 ∷ 4 ∷ 1 ∷ 1 ∷ 2 ∷ []) (λ x y z yaw pitch current_item rest.
      received
        (packet_named_entity_spawn entity_id name (abs_int_xyz x y z) (look_bytes yaw pitch)
            current_item
          ∷ [])
        rest)))

-- A nil pointer is sent as a first field of 0.
abbrev pub put_object_data : Option ObjectData → Bytes
put_object_data none = put_fields ((4, 0) ∷ [])
put_object_data (some d) =
    put_fields ((4, d.field1) ∷ (2, d.field2_0) ∷ (2, d.field2_1) ∷ (2, d.field2_2) ∷ [])

unfoldable pub write_object_spawn : ℕ → ℕ → AbsIntXyz → Option ObjectData → Bytes
write_object_spawn entity_id obj_type position object_data =
    packet_id_object_spawn
    ∷ (put_fields (
          (4, entity_id) ∷ (1, obj_type) ∷ (4, position.x) ∷ (4, position.y) ∷ (4, position.z) ∷ [])
        ++ put_object_data object_data)

unfoldable pub read_object_spawn : Bytes → Received Event
read_object_spawn = read_with (4 ∷ 1 ∷ 4 ∷ 4 ∷ 4 ∷ 4 ∷ []) (λ entity_id obj_type x y z field1.
    if field1 == 0
    then (λ rest.
        received (packet_object_spawn entity_id obj_type (abs_int_xyz x y z) none ∷ []) rest)
    else read_with (2 ∷ 2 ∷ 2 ∷ []) (λ a b c rest.
      received
        (packet_object_spawn entity_id obj_type (abs_int_xyz x y z)
            (some (record { field1 = field1; field2_0 = a; field2_1 = b; field2_2 = c }))
          ∷ [])
        rest))

unfoldable pub write_entity_spawn :
    ℕ → ℕ → AbsIntXyz → LookBytes → List EntityMetadata → Option Bytes
write_entity_spawn entity_id mob_type position look items =
    then_write
      (some (
        packet_id_entity_spawn
        ∷ put_fields (
            (4, entity_id)
            ∷ (1, mob_type)
            ∷ (4, position.x)
            ∷ (4, position.y)
            ∷ (4, position.z)
            ∷ (1, look.yaw)
            ∷ (1, look.pitch)
            ∷ [])))
      (write_entity_metadata_field items)

unfoldable pub read_entity_spawn : Bytes → Received Event
read_entity_spawn =
    read_with (4 ∷ 1 ∷ 4 ∷ 4 ∷ 4 ∷ 1 ∷ 1 ∷ []) (λ entity_id mob_type x y z yaw pitch.
      read_entity_metadata_field (λ items rest.
        received
          (packet_entity_spawn entity_id mob_type (abs_int_xyz x y z) (look_bytes yaw pitch) items
            ∷ [])
          rest))

-- The packet identifier is not written.
unfoldable pub write_painting_spawn : ℕ → List ℕ → BlockXyz → ℕ → Bytes
write_painting_spawn entity_id title position painting_type =
    put_fields ((4, entity_id) ∷ [])
    ++ (write_string16 title
        ++ put_fields (
            (4, position.x) ∷ (4, sext8_32 position.y) ∷ (4, position.z) ∷ (4, painting_type) ∷ []))

unfoldable pub read_painting_spawn : Bytes → Received Event
read_painting_spawn = read_with (4 ∷ []) (λ entity_id. read_string16 (λ title.
    read_with (4 ∷ 4 ∷ 4 ∷ 4 ∷ []) (λ x y z painting_type rest.
      received (packet_painting_spawn entity_id title (block_xyz x (u8 y) z) painting_type ∷ [])
        rest)))
