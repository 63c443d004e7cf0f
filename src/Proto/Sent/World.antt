-- ===== src/Proto/Sent/World.antt =====
-- Packets of src/chunkymonkey/proto/proto.go about the game, its blocks and its windows, which a
-- server sends to a client.
use chunkymonkey.Base.{ℕ, ◌*◌, ◌^◌, ◌<◌, ◌≡◌, Bool, true, false, List, [], ◌∷◌, ◌++◌, length, All}
use chunkymonkey.Base.Words.{u32, lt16}
use chunkymonkey.Coords.{ChunkXz, BlockXyz}
use chunkymonkey.Proto.Wire.{Bytes, InRange}
use chunkymonkey.Proto.Wire.ReadsBack.{IsString16}
use chunkymonkey.Proto.Event.{
  AbsXyz, ExplosionOffsetXyz, LookDegrees, WindowSlot, sub_chunk_size, block_xyz, Event,
  bool_to_byte, packet_player_position, packet_player_look, packet_client_login,
  packet_client_handshake, packet_time_update, packet_spawn_position, packet_update_health,
  packet_player_experience, packet_pre_chunk, packet_map_chunk, packet_block_change,
  packet_note_block_play, packet_explosion, packet_sound_effect, packet_state, packet_window_open,
  packet_window_set_slot, packet_window_items, packet_window_progress_bar,
  packet_quickbar_slot_update, packet_item_data, packet_increment_statistic,
}
use chunkymonkey.Proto.Session.{
  write_time_update, write_update_health, write_player_experience, write_state,
  write_increment_statistic, server_write_login, server_write_handshake, write_spawn_position,
}
use chunkymonkey.Proto.Player.{server_write_player_position_look, write_bed_use}
use chunkymonkey.Proto.World.{
  write_pre_chunk, write_block_change, write_note_block_play, write_sound_effect, write_map_chunk,
  write_explosion,
}
use chunkymonkey.Proto.Windows.{
  write_window_progress_bar, write_quickbar_slot_update, write_window_open, write_window_set_slot,
  write_window_items, write_item_data,
}
use chunkymonkey.Proto.Sent.{IsWindowSlot, items_read}

pub data WorldSends : Bytes → List Event → Type 0 where
  time_update :
      (time : ℕ)
      → InRange ((8, time) ∷ [])
      → WorldSends (write_time_update time) (packet_time_update time ∷ [])
  update_health :
      (health : ℕ) (food : ℕ) (food_saturation : ℕ)
      → InRange ((2, health) ∷ (2, food) ∷ (4, food_saturation) ∷ [])
      → WorldSends
          (write_update_health health food food_saturation)
          (packet_update_health health food food_saturation ∷ [])
  player_experience :
      (experience : ℕ) (level : ℕ) (total_experience : ℕ)
      → InRange ((1, experience) ∷ (1, level) ∷ (2, total_experience) ∷ [])
      → WorldSends
          (write_player_experience experience level total_experience)
          (packet_player_experience experience level total_experience ∷ [])
  state :
      (reason : ℕ) (game_mode : ℕ)
      → InRange ((1, reason) ∷ (1, game_mode) ∷ [])
      → WorldSends (write_state reason game_mode) (packet_state reason game_mode ∷ [])
  increment_statistic :
      (statistic_id : ℕ) (delta : ℕ)
      → InRange ((4, statistic_id) ∷ (1, delta) ∷ [])
      → WorldSends
          (write_increment_statistic statistic_id delta)
          (packet_increment_statistic statistic_id delta ∷ [])
  pre_chunk :
      (chunk_loc : ChunkXz) (mode : ℕ)
      → InRange ((4, chunk_loc.x) ∷ (4, chunk_loc.z) ∷ (1, mode) ∷ [])
      → WorldSends (write_pre_chunk chunk_loc mode) (packet_pre_chunk chunk_loc mode ∷ [])
  block_change :
      (block_loc : BlockXyz) (block_type : ℕ) (block_meta_data : ℕ)
      → InRange (
          (4, block_loc.x)
          ∷ (1, block_loc.y)
          ∷ (4, block_loc.z)
          ∷ (1, block_type)
          ∷ (1, block_meta_data)
          ∷ [])
      → WorldSends
          (write_block_change block_loc block_type block_meta_data)
          (packet_block_change block_loc block_type block_meta_data ∷ [])
  note_block_play :
      (position : BlockXyz) (instrument : ℕ) (pitch : ℕ)
      → InRange
          ((4, position.x) ∷ (1, position.y) ∷ (4, position.z) ∷ (1, instrument) ∷ (1, pitch) ∷ [])
      → WorldSends
          (write_note_block_play position instrument pitch)
          (packet_note_block_play position instrument pitch ∷ [])
  sound_effect :
      (sound : ℕ) (position : BlockXyz) (item_data : ℕ)
      → InRange
          ((4, sound) ∷ (4, position.x) ∷ (1, position.y) ∷ (4, position.z) ∷ (4, item_data) ∷ [])
      → WorldSends
          (write_sound_effect sound position item_data)
          (packet_sound_effect sound position item_data ∷ [])
  window_progress_bar :
      (window_id : ℕ) (prg_bar_id : ℕ) (value : ℕ)
      → InRange ((1, window_id) ∷ (2, prg_bar_id) ∷ (2, value) ∷ [])
      → WorldSends
          (write_window_progress_bar window_id prg_bar_id value)
          (packet_window_progress_bar window_id prg_bar_id value ∷ [])
  quickbar_slot_update :
      (slot : ℕ) (item_id : ℕ) (count : ℕ) (item_data : ℕ)
      → InRange ((2, slot) ∷ (2, item_id) ∷ (1, count) ∷ (2, item_data) ∷ [])
      → WorldSends
          (write_quickbar_slot_update slot item_id count item_data)
          (packet_quickbar_slot_update slot item_id count item_data ∷ [])
  server_login :
      (entity_id map_seed server_mode dimension difficulty world_height max_players : ℕ)
      → InRange ((4, entity_id) ∷ [])
      → InRange (
          (8, map_seed)
          ∷ (4, server_mode)
          ∷ (1, dimension)
          ∷ (1, difficulty)
          ∷ (1, world_height)
          ∷ (1, max_players)
          ∷ [])
      → WorldSends
          (server_write_login entity_id map_seed server_mode dimension difficulty world_height
            max_players)
          (packet_client_login entity_id map_seed server_mode dimension difficulty world_height
              max_players
            ∷ [])
  server_handshake :
      (reply : List ℕ)
      → IsString16 reply
      → WorldSends (server_write_handshake reply) (packet_client_handshake reply ∷ [])
  spawn_position :
      (position : BlockXyz)
      → InRange ((4, position.x) ∷ (1, position.y) ∷ (4, position.z) ∷ [])
      → WorldSends (write_spawn_position position) (packet_spawn_position position ∷ [])
  server_player_position_look :
      (position : AbsXyz) (stance : ℕ) (look : LookDegrees) (on_ground : Bool)
      → InRange (
          (8, position.x)
          ∷ (8, stance)
          ∷ (8, position.y)
          ∷ (8, position.z)
          ∷ (4, look.yaw)
          ∷ (4, look.pitch)
          ∷ (1, bool_to_byte on_ground)
          ∷ [])
      → WorldSends (server_write_player_position_look position stance look on_ground) (
          packet_player_position position stance on_ground ∷ packet_player_look look on_ground ∷ [])
  bed_use :
      (flag : Bool) (bed_loc : BlockXyz)
      → InRange ((1, bool_to_byte flag) ∷ (4, bed_loc.x) ∷ (1, bed_loc.y) ∷ (4, bed_loc.z) ∷ [])
      → WorldSends (write_bed_use flag bed_loc) []
  map_chunk :
      (compress : Bytes → Bytes) (chunk_loc : ChunkXz)
      (blocks block_data block_light sky_light bs : Bytes)
      → compress (blocks ++ block_data ++ block_light ++ sky_light) ≡ bs
      → (length bs < 2 ^ 31) × All (λ b. b < 256 ^ 1) bs
      → WorldSends (write_map_chunk compress chunk_loc blocks block_data block_light sky_light) (
          packet_map_chunk
            (block_xyz (u32 (chunk_loc.x * 16)) 0 (u32 (chunk_loc.z * 16)))
            (sub_chunk_size 15 127 15)
            bs
          ∷ [])
  explosion :
      (position : AbsXyz) (power : ℕ) (block_offsets : List ExplosionOffsetXyz)
      → InRange (
          (8, position.x)
          ∷ (8, position.y)
          ∷ (8, position.z)
          ∷ (4, power)
          ∷ (4, length block_offsets)
          ∷ [])
      → length block_offsets < 2 ^ 31
      → All (λ o. InRange ((1, o.x) ∷ (1, o.y) ∷ (1, o.z) ∷ [])) block_offsets
      → WorldSends
          (write_explosion position power block_offsets)
          (packet_explosion position power block_offsets ∷ [])
  window_open :
      (window_id inv_type_id : ℕ) (window_title : List ℕ) (num_slots : ℕ)
      → InRange ((1, window_id) ∷ (1, inv_type_id) ∷ [])
      → IsString16 window_title
      → InRange ((1, num_slots) ∷ [])
      → WorldSends
          (write_window_open window_id inv_type_id window_title num_slots)
          (packet_window_open window_id inv_type_id window_title num_slots ∷ [])
  window_set_slot :
      (window_id slot item_type_id amount item_data : ℕ)
      → InRange ((1, window_id) ∷ (2, slot) ∷ (2, item_type_id) ∷ [])
      → lt16 0 item_type_id ≡ true
      → InRange ((1, amount) ∷ (2, item_data) ∷ [])
      → WorldSends
          (write_window_set_slot window_id slot item_type_id amount item_data)
          (packet_window_set_slot window_id slot item_type_id amount item_data ∷ [])
  window_clear_slot :
      (window_id slot item_type_id amount item_data : ℕ)
      → InRange ((1, window_id) ∷ (2, slot) ∷ (2, 0xffff) ∷ [])
      → lt16 0 item_type_id ≡ false
      → WorldSends
          (write_window_set_slot window_id slot item_type_id amount item_data)
          (packet_window_set_slot window_id slot 0 0 0 ∷ [])
  window_items :
      (window_id : ℕ) (items : List WindowSlot)
      → InRange ((1, window_id) ∷ (2, length items) ∷ [])
      → length items < 2 ^ 15
      → All IsWindowSlot items
      → WorldSends
          (write_window_items window_id items)
          (packet_window_items window_id (items_read 0 0 items) ∷ [])
  item_data_packet :
      (item_type_id item_data_id : ℕ) (item_bytes : Bytes)
      → InRange ((2, item_type_id) ∷ (2, item_data_id) ∷ (1, length item_bytes) ∷ [])
      → All (λ b. b < 256 ^ 1) item_bytes
      → WorldSends
          (write_item_data item_type_id item_data_id item_bytes)
          (packet_item_data item_type_id item_data_id item_bytes ∷ [])
