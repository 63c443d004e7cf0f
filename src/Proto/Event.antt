-- ===== src/Proto/Event.antt =====
-- The calls that the readers of src/chunkymonkey/proto/proto.go make of their handlers: one
-- constructor for each method of IPacketHandler, IServerPacketHandler and IClientPacketHandler, with
-- the structs that are passed. A value of a fixed size is a bit pattern, and a nil pointer is `none`.
use chunkymonkey.Base.{ℕ, ◌==◌, Bool, true, false, not, Option, List}
use chunkymonkey.Coords.{BlockXyz, ChunkXz, SubChunkXyz}
use chunkymonkey.Proto.Wire.{Bytes}

pub record AbsXyz : Type 0 where
  pub x : ℕ
  pub y : ℕ
  pub z : ℕ

pub record AbsIntXyz : Type 0 where
  pub x : ℕ
  pub y : ℕ
  pub z : ℕ

pub record Velocity : Type 0 where
  pub x : ℕ
  pub y : ℕ
  pub z : ℕ

pub record RelMove : Type 0 where
  pub x : ℕ
  pub y : ℕ
  pub z : ℕ

pub record SubChunkSize : Type 0 where
  pub x : ℕ
  pub y : ℕ
  pub z : ℕ

pub record ExplosionOffsetXyz : Type 0 where
  pub x : ℕ
  pub y : ℕ
  pub z : ℕ

pub record LookDegrees : Type 0 where
  pub yaw : ℕ
  pub pitch : ℕ

pub record LookBytes : Type 0 where
  pub yaw : ℕ
  pub pitch : ℕ

pub record OrientationBytes : Type 0 where
  pub yaw : ℕ
  pub pitch : ℕ
  pub roll : ℕ

pub record WindowSlot : Type 0 where
  pub item_type_id : ℕ
  pub count : ℕ
  pub item_data : ℕ

pub record ObjectData : Type 0 where
  pub field1 : ℕ
  pub field2_0 : ℕ
  pub field2_1 : ℕ
  pub field2_2 : ℕ

abbrev pub abs_xyz : ℕ → ℕ → ℕ → AbsXyz
abs_xyz x y z = record { x = x; y = y; z = z }

abbrev pub abs_int_xyz : ℕ → ℕ → ℕ → AbsIntXyz
abs_int_xyz x y z = record { x = x; y = y; z = z }

abbrev pub velocity_xyz : ℕ → ℕ → ℕ → Velocity
velocity_xyz x y z = record { x = x; y = y; z = z }

abbrev pub rel_move : ℕ → ℕ → ℕ → RelMove
rel_move x y z = record { x = x; y = y; z = z }

abbrev pub sub_chunk_size : ℕ → ℕ → ℕ → SubChunkSize
sub_chunk_size x y z = record { x = x; y = y; z = z }

abbrev pub explosion_offset_xyz : ℕ → ℕ → ℕ → ExplosionOffsetXyz
explosion_offset_xyz x y z = record { x = x; y = y; z = z }

abbrev pub look_degrees : ℕ → ℕ → LookDegrees
look_degrees yaw pitch = record { yaw = yaw; pitch = pitch }

abbrev pub look_bytes : ℕ → ℕ → LookBytes
look_bytes yaw pitch = record { yaw = yaw; pitch = pitch }

abbrev pub orientation_bytes : ℕ → ℕ → ℕ → OrientationBytes
orientation_bytes yaw pitch roll = record { yaw = yaw; pitch = pitch; roll = roll }

abbrev pub block_xyz : ℕ → ℕ → ℕ → BlockXyz
block_xyz x y z = record { x = x; y = y; z = z }

abbrev pub chunk_xz : ℕ → ℕ → ChunkXz
chunk_xz x z = record { x = x; z = z }

abbrev pub sub_chunk_xyz : ℕ → ℕ → ℕ → SubChunkXyz
sub_chunk_xyz x y z = record { x = x; y = y; z = z }

abbrev pub window_slot : ℕ → ℕ → ℕ → WindowSlot
window_slot item_type_id count item_data = record {
  item_type_id = item_type_id;
  count = count;
  item_data = item_data;
}

-- What an entry of metadata holds; `nil` is the empty interface before anything was read.
pub data MetadataValue : Type 0 where
  nil : MetadataValue
  byte_val : ℕ → MetadataValue
  int16_val : ℕ → MetadataValue
  int32_val : ℕ → MetadataValue
  float_val : ℕ → MetadataValue
  string_val : List ℕ → MetadataValue
  position_val : ℕ → ℕ → ℕ → MetadataValue

pub record EntityMetadata : Type 0 where
  pub field1 : ℕ
  pub field2 : ℕ
  pub field3 : MetadataValue

pub data Event : Type 0 where
  packet_keep_alive : ℕ → Event
  packet_chat_message : List ℕ → Event
  packet_entity_action : ℕ → ℕ → Event
  packet_use_entity : ℕ → ℕ → Bool → Event
  packet_respawn : ℕ → ℕ → ℕ → ℕ → ℕ → Event
  packet_player_position : AbsXyz → ℕ → Bool → Event
  packet_player_look : LookDegrees → Bool → Event
  packet_player_block_hit : ℕ → BlockXyz → ℕ → Event
  packet_player_block_interact : ℕ → BlockXyz → ℕ → ℕ → ℕ → Event
  packet_entity_animation : ℕ → ℕ → Event
  packet_window_transaction : ℕ → ℕ → Bool → Event
  packet_sign_update : BlockXyz → List ℕ → List ℕ → List ℕ → List ℕ → Event
  packet_disconnect : List ℕ → Event
  packet_server_login : List ℕ → Event
  packet_server_handshake : List ℕ → Event
  packet_player : Bool → Event
  packet_holding_change : ℕ → Event
  packet_window_close : ℕ → Event
  packet_window_click : ℕ → ℕ → Bool → ℕ → Bool → WindowSlot → Event
  packet_server_list_ping : Event
  packet_client_login : ℕ → ℕ → ℕ → ℕ → ℕ → ℕ → ℕ → Event
  packet_client_handshake : List ℕ → Event
  packet_time_update : ℕ → Event
  packet_bed_use : Bool → BlockXyz → Event
  packet_named_entity_spawn : ℕ → List ℕ → AbsIntXyz → LookBytes → ℕ → Event
  packet_entity_equipment : ℕ → ℕ → ℕ → ℕ → Event
  packet_spawn_position : BlockXyz → Event
  packet_update_health : ℕ → ℕ → ℕ → Event
  packet_item_spawn : ℕ → ℕ → ℕ → ℕ → AbsIntXyz → OrientationBytes → Event
  packet_item_collect : ℕ → ℕ → Event
  packet_object_spawn : ℕ → ℕ → AbsIntXyz → Option ObjectData → Event
  packet_entity_spawn : ℕ → ℕ → AbsIntXyz → LookBytes → List EntityMetadata → Event
  packet_painting_spawn : ℕ → List ℕ → BlockXyz → ℕ → Event
  packet_experience_orb : ℕ → AbsIntXyz → ℕ → Event
  packet_entity_velocity : ℕ → Velocity → Event
  packet_entity_destroy : ℕ → Event
  packet_entity : ℕ → Event
  packet_entity_rel_move : ℕ → RelMove → Event
  packet_entity_look : ℕ → LookBytes → Event
  packet_entity_teleport : ℕ → AbsIntXyz → LookBytes → Event
  packet_entity_status : ℕ → ℕ → Event
  packet_entity_metadata : ℕ → List EntityMetadata → Event
  packet_entity_effect : ℕ → ℕ → ℕ → ℕ → Event
  packet_entity_remove_effect : ℕ → ℕ → Event
  packet_player_experience : ℕ → ℕ → ℕ → Event
  packet_pre_chunk : ChunkXz → ℕ → Event
  packet_map_chunk : BlockXyz → SubChunkSize → Bytes → Event
  packet_block_change_multi : ChunkXz → List SubChunkXyz → List ℕ → Bytes → Event
  packet_block_change : BlockXyz → ℕ → ℕ → Event
  packet_note_block_play : BlockXyz → ℕ → ℕ → Event
  packet_explosion : AbsXyz → ℕ → List ExplosionOffsetXyz → Event
  packet_sound_effect : ℕ → BlockXyz → ℕ → Event
  packet_state : ℕ → ℕ → Event
  packet_weather : ℕ → Bool → AbsIntXyz → Event
  packet_window_open : ℕ → ℕ → List ℕ → ℕ → Event
  packet_window_set_slot : ℕ → ℕ → ℕ → ℕ → ℕ → Event
  packet_window_items : ℕ → List WindowSlot → Event
  packet_window_progress_bar : ℕ → ℕ → ℕ → Event
  packet_quickbar_slot_update : ℕ → ℕ → ℕ → ℕ → Event
  packet_item_data : ℕ → ℕ → Bytes → Event
  packet_increment_statistic : ℕ → ℕ → Event
  packet_user_list_item : List ℕ → Bool → ℕ → Event

abbrev pub bool_to_byte : Bool → ℕ
bool_to_byte true = 1
bool_to_byte false = 0

abbrev pub byte_to_bool : ℕ → Bool
byte_to_bool b = not (b == 0)
