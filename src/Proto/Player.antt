-- ===== src/Proto/Player.antt =====
-- Packets of src/chunkymonkey/proto/proto.go about what a player does.
use chunkymonkey.Base.{ℕ, Bool, [], ◌∷◌, ◌++◌, ◌==◌, if◌then◌else◌}
use chunkymonkey.Base.Words.{le16}
use chunkymonkey.Coords.{BlockXyz}
use chunkymonkey.Proto.Wire.{Bytes, Received, put_fields, read_or, read_with, eof, received, failed}
use chunkymonkey.Proto.Ids.{
  packet_id_use_entity, packet_id_player, packet_id_player_position, packet_id_player_look,
  packet_id_player_position_look, packet_id_player_block_hit, packet_id_player_block_interact,
  packet_id_holding_change, packet_id_bed_use, packet_id_entity_animation, packet_id_entity_action,
}
use chunkymonkey.Proto.Event.{
  AbsXyz, LookDegrees, abs_xyz, look_degrees, block_xyz, Event, bool_to_byte, byte_to_bool,
  packet_entity_action, packet_use_entity, packet_player_position, packet_player_look,
  packet_player_block_hit, packet_player_block_interact, packet_entity_animation, packet_player,
  packet_holding_change, packet_bed_use,
}

unfoldable pub write_player : Bool → Bytes
write_player on_ground = packet_id_player ∷ put_fields ((1, bool_to_byte on_ground) ∷ [])

unfoldable pub read_player : Bytes → Received Event
read_player =
    read_with (1 ∷ [])
      (λ on_ground rest. received (packet_player (byte_to_bool on_ground) ∷ []) rest)

unfoldable pub write_player_position : AbsXyz → ℕ → Bool → Bytes
write_player_position position stance on_ground =
    packet_id_player_position
    ∷ put_fields (
        (8, position.x)
        ∷ (8, position.y)
        ∷ (8, stance)
        ∷ (8, position.z)
        ∷ (1, bool_to_byte on_ground)
        ∷ [])

unfoldable pub read_player_position : Bytes → Received Event
read_player_position = read_with (8 ∷ 8 ∷ 8 ∷ 8 ∷ 1 ∷ []) (λ x y stance z on_ground rest.
    received (packet_player_position (abs_xyz x y z) stance (byte_to_bool on_ground) ∷ []) rest)

unfoldable pub write_player_look : LookDegrees → Bool → Bytes
write_player_look look on_ground =
    packet_id_player_look
    ∷ put_fields ((4, look.yaw) ∷ (4, look.pitch) ∷ (1, bool_to_byte on_ground) ∷ [])

unfoldable pub read_player_look : Bytes → Received Event
read_player_look = read_with (4 ∷ 4 ∷ 1 ∷ []) (λ yaw pitch on_ground rest.
    received (packet_player_look (look_degrees yaw pitch) (byte_to_bool on_ground) ∷ []) rest)

unfoldable pub write_player_block_hit : ℕ → BlockXyz → ℕ → Bytes
write_player_block_hit status block_loc face =
    packet_id_player_block_hit
    ∷ put_fields
        ((1, status) ∷ (4, block_loc.x) ∷ (1, block_loc.y) ∷ (4, block_loc.z) ∷ (1, face) ∷ [])

unfoldable pub read_player_block_hit : Bytes → Received Event
read_player_block_hit = read_with (1 ∷ 4 ∷ 1 ∷ 4 ∷ 1 ∷ []) (λ status x y z face rest.
    received (packet_player_block_hit status (block_xyz x y z) face ∷ []) rest)

unfoldable pub write_holding_change : ℕ → Bytes
write_holding_change slot_id = packet_id_holding_change ∷ put_fields ((2, slot_id) ∷ [])

unfoldable pub read_holding_change : Bytes → Received Event
read_holding_change =
    read_with (2 ∷ []) (λ slot_id rest. received (packet_holding_change slot_id ∷ []) rest)

unfoldable pub write_use_entity : ℕ → ℕ → Bool → Bytes
write_use_entity user target left_click =
    packet_id_use_entity ∷ put_fields ((4, user) ∷ (4, target) ∷ (1, bool_to_byte left_click) ∷ [])

unfoldable pub read_use_entity : Bytes → Received Event
read_use_entity = read_with (4 ∷ 4 ∷ 1 ∷ []) (λ user target left_click rest.
    received (packet_use_entity user target (byte_to_bool left_click) ∷ []) rest)

unfoldable pub write_entity_animation : ℕ → ℕ → Bytes
write_entity_animation entity_id animation =
    packet_id_entity_animation ∷ put_fields ((4, entity_id) ∷ (1, animation) ∷ [])

unfoldable pub read_entity_animation : Bytes → Received Event
read_entity_animation =
    read_with (4 ∷ 1 ∷ [])
      (λ entity_id animation rest. received (packet_entity_animation entity_id animation ∷ []) rest)

unfoldable pub write_entity_action : ℕ → ℕ → Bytes
write_entity_action entity_id action =
    packet_id_entity_action ∷ put_fields ((4, entity_id) ∷ (1, action) ∷ [])

unfoldable pub read_entity_action : Bytes → Received Event
read_entity_action =
    read_with (4 ∷ 1 ∷ [])
      (λ entity_id action rest. received (packet_entity_action entity_id action ∷ []) rest)

abbrev pub write_player_position_look_common : ℕ → ℕ → ℕ → ℕ → LookDegrees → Bool → Bytes
write_player_position_look_common x y1 y2 z look on_ground =
    packet_id_player_position_look
    ∷ put_fields (
        (8, x)
        ∷ (8, y1)
        ∷ (8, y2)
        ∷ (8, z)
        ∷ (4, look.yaw)
        ∷ (4, look.pitch)
        ∷ (1, bool_to_byte on_ground)
        ∷ [])

unfoldable pub client_write_player_position_look : AbsXyz → ℕ → LookDegrees → Bool → Bytes
client_write_player_position_look position stance look on_ground =
    write_player_position_look_common position.x position.y stance position.z look on_ground

unfoldable pub server_write_player_position_look : AbsXyz → ℕ → LookDegrees → Bool → Bytes
server_write_player_position_look position stance look on_ground =
    write_player_position_look_common position.x stance position.y position.z look on_ground

abbrev pub common_read_player_position_look :
    (ℕ → ℕ → ℕ → ℕ → LookDegrees → Bool → Bytes → Received Event) → Bytes → Received Event
common_read_player_position_look k =
    read_with (8 ∷ 8 ∷ 8 ∷ 8 ∷ 4 ∷ 4 ∷ 1 ∷ []) (λ x y1 y2 z yaw pitch on_ground.
      k x y1 y2 z (look_degrees yaw pitch) (byte_to_bool on_ground))

unfoldable pub client_read_player_position_look : Bytes → Received Event
client_read_player_position_look =
    common_read_player_position_look (λ x y1 y2 z look on_ground rest.
      received
        (packet_player_position (abs_xyz x y2 z) y1 on_ground
          ∷ packet_player_look look on_ground
          ∷ [])
        rest)

unfoldable pub server_read_player_position_look : Bytes → Received Event
server_read_player_position_look =
    common_read_player_position_look (λ x y1 y2 z look on_ground rest.
      received
        (packet_player_position (abs_xyz x y1 z) y2 on_ground
          ∷ packet_player_look look on_ground
          ∷ [])
        rest)

-- The item's amount and data follow unless its type is -1, for the writer, ...
unfoldable pub write_player_block_interact : ℕ → BlockXyz → ℕ → ℕ → ℕ → Bytes
write_player_block_interact item_type_id block_loc face amount item_data =
    packet_id_player_block_interact
    ∷ (put_fields (
          (4, block_loc.x)
          ∷ (1, block_loc.y)
          ∷ (4, block_loc.z)
          ∷ (1, face)
          ∷ (2, item_type_id)
          ∷ [])
        ++ (if item_type_id == 0xffff then [] else put_fields ((1, amount) ∷ (2, item_data) ∷ [])))

-- ... and unless it is negative, for the reader.
unfoldable pub read_player_block_interact : Bytes → Received Event
read_player_block_interact = read_with (4 ∷ 1 ∷ 4 ∷ 1 ∷ 2 ∷ []) (λ x y z face item_type_id.
    if le16 0 item_type_id
    then read_with (1 ∷ 2 ∷ []) (λ amount item_data rest.
      received
        (packet_player_block_interact item_type_id (block_xyz x y z) face amount item_data ∷ [])
        rest)
    else λ rest.
        received (packet_player_block_interact item_type_id (block_xyz x y z) face 0 0 ∷ []) rest)

unfoldable pub write_bed_use : Bool → BlockXyz → Bytes
write_bed_use flag bed_loc =
    packet_id_bed_use
    ∷ put_fields ((1, bool_to_byte flag) ∷ (4, bed_loc.x) ∷ (1, bed_loc.y) ∷ (4, bed_loc.z) ∷ [])

-- The handler is called where reading fails, with the zeros of the struct that was not read.
unfoldable pub read_bed_use : Bytes → Received Event
read_bed_use =
    read_or (failed (packet_bed_use (byte_to_bool 0) (block_xyz 0 0 0) ∷ []) eof)
      (1 ∷ 4 ∷ 1 ∷ 4 ∷ []) (λ flag x y z rest. received [] rest)
