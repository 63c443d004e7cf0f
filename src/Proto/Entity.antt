-- ===== src/Proto/Entity.antt =====
-- Packets of src/chunkymonkey/proto/proto.go about entities that are there.
use chunkymonkey.Base.{ℕ, Option, some, List, [], ◌∷◌}
use chunkymonkey.Proto.Wire.{Bytes, Received, put_fields, read_with, received}
use chunkymonkey.Proto.Ids.{
  packet_id_entity_equipment, packet_id_item_collect, packet_id_entity_velocity,
  packet_id_entity_destroy, packet_id_entity, packet_id_entity_rel_move, packet_id_entity_look,
  packet_id_entity_look_and_rel_move, packet_id_entity_teleport, packet_id_entity_status,
  packet_id_entity_metadata, packet_id_entity_effect,
}
use chunkymonkey.Proto.Event.{
  AbsIntXyz, Velocity, RelMove, LookBytes, abs_int_xyz, velocity_xyz, rel_move, look_bytes,
  EntityMetadata, Event, packet_entity_equipment, packet_item_collect, packet_entity_velocity,
  packet_entity_destroy, packet_entity, packet_entity_rel_move, packet_entity_look,
  packet_entity_teleport, packet_entity_status, packet_entity_metadata, packet_entity_effect,
  packet_entity_remove_effect,
}
use chunkymonkey.Proto.Metadata.{
  then_write, write_entity_metadata_field, read_entity_metadata_field,
}

unfoldable pub write_entity_equipment : ℕ → ℕ → ℕ → ℕ → Bytes
write_entity_equipment entity_id slot item_type_id item_data =
    packet_id_entity_equipment
    ∷ put_fields ((4, entity_id) ∷ (2, slot) ∷ (2, item_type_id) ∷ (2, item_data) ∷ [])

unfoldable pub read_entity_equipment : Bytes → Received Event
read_entity_equipment =
    read_with (4 ∷ 2 ∷ 2 ∷ 2 ∷ []) (λ entity_id slot item_type_id item_data rest.
      received (packet_entity_equipment entity_id slot item_type_id item_data ∷ []) rest)

unfoldable pub write_item_collect : ℕ → ℕ → Bytes
write_item_collect collected_item collector =
    packet_id_item_collect ∷ put_fields ((4, collected_item) ∷ (4, collector) ∷ [])

unfoldable pub read_item_collect : Bytes → Received Event
read_item_collect = read_with (4 ∷ 4 ∷ []) (λ collected_item collector rest.
    received (packet_item_collect collected_item collector ∷ []) rest)

unfoldable pub write_entity_velocity : ℕ → Velocity → Bytes
write_entity_velocity entity_id velocity =
    packet_id_entity_velocity
    ∷ put_fields ((4, entity_id) ∷ (2, velocity.x) ∷ (2, velocity.y) ∷ (2, velocity.z) ∷ [])

unfoldable pub read_entity_velocity : Bytes → Received Event
read_entity_velocity = read_with (4 ∷ 2 ∷ 2 ∷ 2 ∷ []) (λ entity_id x y z rest.
    received (packet_entity_velocity entity_id (velocity_xyz x y z) ∷ []) rest)

unfoldable pub write_entity_destroy : ℕ → Bytes
write_entity_destroy entity_id = packet_id_entity_destroy ∷ put_fields ((4, entity_id) ∷ [])

unfoldable pub read_entity_destroy : Bytes → Received Event
read_entity_destroy =
    read_with (4 ∷ []) (λ entity_id rest. received (packet_entity_destroy entity_id ∷ []) rest)

unfoldable pub write_entity : ℕ → Bytes
write_entity entity_id = packet_id_entity ∷ put_fields ((4, entity_id) ∷ [])

unfoldable pub read_entity : Bytes → Received Event
read_entity = read_with (4 ∷ []) (λ entity_id rest. received (packet_entity entity_id ∷ []) rest)

unfoldable pub write_entity_rel_move : ℕ → RelMove → Bytes
write_entity_rel_move entity_id movement =
    packet_id_entity_rel_move
    ∷ put_fields ((4, entity_id) ∷ (1, movement.x) ∷ (1, movement.y) ∷ (1, movement.z) ∷ [])

unfoldable pub read_entity_rel_move : Bytes → Received Event
read_entity_rel_move =
    read_with (4 ∷ 1 ∷ 1 ∷ 1 ∷ []) (λ entity_id x y z rest.
      received (packet_entity_rel_move entity_id (rel_move x y z) ∷ []) rest)

unfoldable pub write_entity_look : ℕ → LookBytes → Bytes
write_entity_look entity_id look =
    packet_id_entity_look ∷ put_fields ((4, entity_id) ∷ (1, look.yaw) ∷ (1, look.pitch) ∷ [])

unfoldable pub read_entity_look : Bytes → Received Event
read_entity_look = read_with (4 ∷ 1 ∷ 1 ∷ []) (λ entity_id yaw pitch rest.
    received (packet_entity_look entity_id (look_bytes yaw pitch) ∷ []) rest)

unfoldable pub write_entity_look_and_rel_move : ℕ → RelMove → LookBytes → Bytes
write_entity_look_and_rel_move entity_id movement look =
    packet_id_entity_look_and_rel_move
    ∷ put_fields (
        (4, entity_id)
        ∷ (1, movement.x)
        ∷ (1, movement.y)
        ∷ (1, movement.z)
        ∷ (1, look.yaw)
        ∷ (1, look.pitch)
        ∷ [])

unfoldable pub read_entity_look_and_rel_move : Bytes → Received Event
read_entity_look_and_rel_move =
    read_with (4 ∷ 1 ∷ 1 ∷ 1 ∷ 1 ∷ 1 ∷ []) (λ entity_id x y z yaw pitch rest.
      received
        (packet_entity_rel_move entity_id (rel_move x y z)
          ∷ packet_entity_look entity_id (look_bytes yaw pitch)
          ∷ [])
        rest)

unfoldable pub write_entity_teleport : ℕ → AbsIntXyz → LookBytes → Bytes
write_entity_teleport entity_id position look =
    packet_id_entity_teleport
    ∷ put_fields (
        (4, entity_id)
        ∷ (4, position.x)
        ∷ (4, position.y)
        ∷ (4, position.z)
        ∷ (1, look.yaw)
        ∷ (1, look.pitch)
        ∷ [])

unfoldable pub read_entity_teleport : Bytes → Received Event
read_entity_teleport = read_with (4 ∷ 4 ∷ 4 ∷ 4 ∷ 1 ∷ 1 ∷ []) (λ entity_id x y z yaw pitch rest.
    received (packet_entity_teleport entity_id (abs_int_xyz x y z) (look_bytes yaw pitch) ∷ [])
      rest)

unfoldable pub write_entity_status : ℕ → ℕ → Bytes
write_entity_status entity_id status =
    packet_id_entity_status ∷ put_fields ((4, entity_id) ∷ (1, status) ∷ [])

unfoldable pub read_entity_status : Bytes → Received Event
read_entity_status =
    read_with (4 ∷ 1 ∷ [])
      (λ entity_id status rest. received (packet_entity_status entity_id status ∷ []) rest)

unfoldable pub write_entity_effect : ℕ → ℕ → ℕ → ℕ → Bytes
write_entity_effect entity_id effect value duration =
    packet_id_entity_effect
    ∷ put_fields ((4, entity_id) ∷ (1, effect) ∷ (1, value) ∷ (2, duration) ∷ [])

unfoldable pub read_entity_effect : Bytes → Received Event
read_entity_effect = read_with (4 ∷ 1 ∷ 1 ∷ 2 ∷ []) (λ entity_id effect value duration rest.
    received (packet_entity_effect entity_id effect value duration ∷ []) rest)

-- The packet carries the identifier of EntityEffect.
unfoldable pub write_entity_remove_effect : ℕ → ℕ → Bytes
write_entity_remove_effect entity_id effect =
    packet_id_entity_effect ∷ put_fields ((4, entity_id) ∷ (1, effect) ∷ [])

unfoldable pub read_entity_remove_effect : Bytes → Received Event
read_entity_remove_effect =
    read_with (4 ∷ 1 ∷ [])
      (λ entity_id effect rest. received (packet_entity_remove_effect entity_id effect ∷ []) rest)

unfoldable pub write_entity_metadata : ℕ → List EntityMetadata → Option Bytes
write_entity_metadata entity_id items =
    then_write (some (packet_id_entity_metadata ∷ put_fields ((4, entity_id) ∷ [])))
      (write_entity_metadata_field items)

unfoldable pub read_entity_metadata : Bytes → Received Event
read_entity_metadata = read_with (4 ∷ []) (λ entity_id.
    read_entity_metadata_field
      (λ items rest. received (packet_entity_metadata entity_id items ∷ []) rest))
