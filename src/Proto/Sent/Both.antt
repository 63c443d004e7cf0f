-- ===== src/Proto/Sent/Both.antt =====
-- Packets of src/chunkymonkey/proto/proto.go that both sides send.
use chunkymonkey.Base.{ℕ, ◌≡◌, inr, Bool, true, List, [], ◌∷◌}
use chunkymonkey.Base.Words.{le16}
use chunkymonkey.Coords.{BlockXyz}
use chunkymonkey.Proto.Wire.{Bytes, InRange}
use chunkymonkey.Proto.Wire.ReadsBack.{IsString16}
use chunkymonkey.Proto.Event.{
  AbsXyz, LookDegrees, Event, bool_to_byte, packet_keep_alive, packet_chat_message,
  packet_entity_action, packet_use_entity, packet_respawn, packet_player_position,
  packet_player_look, packet_player_block_hit, packet_player_block_interact,
  packet_entity_animation, packet_window_transaction, packet_sign_update, packet_disconnect,
}
use chunkymonkey.Proto.Session.{
  write_keep_alive, write_respawn, write_chat_message, write_disconnect,
}
use chunkymonkey.Proto.Player.{
  write_player_position, write_player_look, write_player_block_hit, write_use_entity,
  write_entity_animation, write_entity_action, write_player_block_interact,
}
use chunkymonkey.Proto.Windows.{write_window_transaction, write_sign_update}

pub data BothSend : Bytes → List Event → Type 0 where
  keep_alive :
      (id : ℕ) → InRange ((4, id) ∷ []) → BothSend (write_keep_alive id) (packet_keep_alive id ∷ [])
  respawn :
      (dimension : ℕ) (unknown : ℕ) (game_type : ℕ) (world_height : ℕ) (map_seed : ℕ)
      → InRange
          ((1, dimension) ∷ (1, unknown) ∷ (1, game_type) ∷ (2, world_height) ∷ (8, map_seed) ∷ [])
      → BothSend
          (write_respawn dimension unknown game_type world_height map_seed)
          (packet_respawn dimension unknown game_type world_height map_seed ∷ [])
  player_position :
      (position : AbsXyz) (stance : ℕ) (on_ground : Bool)
      → InRange (
          (8, position.x)
          ∷ (8, position.y)
          ∷ (8, stance)
          ∷ (8, position.z)
          ∷ (1, bool_to_byte on_ground)
          ∷ [])
      → BothSend
          (write_player_position position stance on_ground)
          (packet_player_position position stance on_ground ∷ [])
  player_look :
      (look : LookDegrees) (on_ground : Bool)
      → InRange ((4, look.yaw) ∷ (4, look.pitch) ∷ (1, bool_to_byte on_ground) ∷ [])
      → BothSend (write_player_look look on_ground) (packet_player_look look on_ground ∷ [])
  player_block_hit :
      (status : ℕ) (block_loc : BlockXyz) (face : ℕ)
      → InRange
          ((1, status) ∷ (4, block_loc.x) ∷ (1, block_loc.y) ∷ (4, block_loc.z) ∷ (1, face) ∷ [])
      → BothSend
          (write_player_block_hit status block_loc face)
          (packet_player_block_hit status block_loc face ∷ [])
  use_entity :
      (user : ℕ) (target : ℕ) (left_click : Bool)
      → InRange ((4, user) ∷ (4, target) ∷ (1, bool_to_byte left_click) ∷ [])
      → BothSend
          (write_use_entity user target left_click)
          (packet_use_entity user target left_click ∷ [])
  entity_animation :
      (entity_id : ℕ) (animation : ℕ)
      → InRange ((4, entity_id) ∷ (1, animation) ∷ [])
      → BothSend
          (write_entity_animation entity_id animation)
          (packet_entity_animation entity_id animation ∷ [])
  entity_action :
      (entity_id : ℕ) (action : ℕ)
      → InRange ((4, entity_id) ∷ (1, action) ∷ [])
      → BothSend (write_entity_action entity_id action) (packet_entity_action entity_id action ∷ [])
  window_transaction :
      (window_id : ℕ) (tx_id : ℕ) (accepted : Bool)
      → InRange ((1, window_id) ∷ (2, tx_id) ∷ (1, bool_to_byte accepted) ∷ [])
      → BothSend
          (write_window_transaction window_id tx_id accepted)
          (packet_window_transaction window_id tx_id accepted ∷ [])
  chat_message :
      (message : List ℕ) (bs : Bytes)
      → write_chat_message message ≡ inr bs
      → IsString16 message
      → BothSend bs (packet_chat_message message ∷ [])
  player_block_interact :
      (item_type_id : ℕ) (block_loc : BlockXyz) (face amount item_data : ℕ)
      → InRange (
          (4, block_loc.x)
          ∷ (1, block_loc.y)
          ∷ (4, block_loc.z)
          ∷ (1, face)
          ∷ (2, item_type_id)
          ∷ [])
      → le16 0 item_type_id ≡ true
      → InRange ((1, amount) ∷ (2, item_data) ∷ [])
      → BothSend
          (write_player_block_interact item_type_id block_loc face amount item_data)
          (packet_player_block_interact item_type_id block_loc face amount item_data ∷ [])
  empty_hand_interact :
      (block_loc : BlockXyz) (face amount item_data : ℕ)
      → InRange
          ((4, block_loc.x) ∷ (1, block_loc.y) ∷ (4, block_loc.z) ∷ (1, face) ∷ (2, 0xffff) ∷ [])
      → BothSend
          (write_player_block_interact 0xffff block_loc face amount item_data)
          (packet_player_block_interact 0xffff block_loc face 0 0 ∷ [])
  sign_update :
      (position : BlockXyz) (line0 line1 line2 line3 : List ℕ)
      → InRange ((4, position.x) ∷ (1, position.y) ∷ (4, position.z) ∷ [])
      → IsString16 line0
      → IsString16 line1
      → IsString16 line2
      → IsString16 line3
      → BothSend
          (write_sign_update position line0 line1 line2 line3)
          (packet_sign_update position line0 line1 line2 line3 ∷ [])
  disconnect :
      (reason : List ℕ)
      → IsString16 reason
      → BothSend (write_disconnect reason) (packet_disconnect reason ∷ [])
