-- ===== src/Proto/Dispatch.antt =====
-- Which reader of src/chunkymonkey/proto/proto.go a packet goes to, by its identifier.
use chunkymonkey.Base.{ℕ, Bool, true, false, Option, none, some, List, [], ◌∷◌, ◌==◌, if◌then◌else◌}
use chunkymonkey.Proto.Wire.{
  Bytes, Received, read_with, unexpected_packet_id, unknown_packet_id, failed,
}
use chunkymonkey.Proto.Ids.{
  packet_id_keep_alive, packet_id_login, packet_id_handshake, packet_id_chat_message,
  packet_id_time_update, packet_id_entity_equipment, packet_id_spawn_position, packet_id_use_entity,
  packet_id_update_health, packet_id_respawn, packet_id_player, packet_id_player_position,
  packet_id_player_look, packet_id_player_position_look, packet_id_player_block_hit,
  packet_id_player_block_interact, packet_id_holding_change, packet_id_bed_use,
  packet_id_entity_animation, packet_id_entity_action, packet_id_named_entity_spawn,
  packet_id_item_spawn, packet_id_item_collect, packet_id_object_spawn, packet_id_entity_spawn,
  packet_id_painting_spawn, packet_id_experience_orb, packet_id_entity_velocity,
  packet_id_entity_destroy, packet_id_entity, packet_id_entity_rel_move, packet_id_entity_look,
  packet_id_entity_look_and_rel_move, packet_id_entity_teleport, packet_id_entity_status,
  packet_id_entity_metadata, packet_id_entity_effect, packet_id_entity_remove_effect,
  packet_id_player_experience, packet_id_pre_chunk, packet_id_map_chunk,
  packet_id_block_change_multi, packet_id_block_change, packet_id_note_block_play,
  packet_id_explosion, packet_id_sound_effect, packet_id_state, packet_id_weather,
  packet_id_window_open, packet_id_window_close, packet_id_window_click, packet_id_window_set_slot,
  packet_id_window_items, packet_id_window_progress_bar, packet_id_window_transaction,
  packet_id_quickbar_slot_update, packet_id_sign_update, packet_id_item_data,
  packet_id_increment_statistic, packet_id_server_list_ping, packet_id_disconnect,
}
use chunkymonkey.Proto.Event.{Event}
use chunkymonkey.Proto.Session.{
  read_keep_alive, read_time_update, read_update_health, read_respawn, read_player_experience,
  read_state, read_increment_statistic, server_read_login, client_read_login, server_read_handshake,
  client_read_handshake, read_chat_message, read_spawn_position, read_server_list_ping,
  read_disconnect,
}
use chunkymonkey.Proto.Player.{
  read_player, read_player_position, read_player_look, read_player_block_hit, read_holding_change,
  read_use_entity, read_entity_animation, read_entity_action, client_read_player_position_look,
  server_read_player_position_look, read_player_block_interact, read_bed_use,
}
use chunkymonkey.Proto.Entity.{
  read_entity_equipment, read_item_collect, read_entity_velocity, read_entity_destroy, read_entity,
  read_entity_rel_move, read_entity_look, read_entity_look_and_rel_move, read_entity_teleport,
  read_entity_status, read_entity_effect, read_entity_remove_effect, read_entity_metadata,
}
use chunkymonkey.Proto.Spawn.{
  read_item_spawn, read_experience_orb, read_weather, read_named_entity_spawn, read_object_spawn,
  read_entity_spawn, read_painting_spawn,
}
use chunkymonkey.Proto.World.{
  read_pre_chunk, read_block_change, read_note_block_play, read_sound_effect, read_map_chunk,
  read_block_change_multi, read_explosion,
}
use chunkymonkey.Proto.Windows.{
  read_window_close, read_window_progress_bar, read_window_transaction, read_quickbar_slot_update,
  read_window_open, read_window_click, read_window_set_slot, read_window_items, read_sign_update,
  read_item_data,
}

abbrev pub lookup {ℓ} : {A : Type ℓ} → ℕ → List (ℕ × A) → Option A
lookup key [] = none
lookup key ((k, v) ∷ entries) = if key == k then some v else lookup key entries

unfoldable pub common_read_fns : List (ℕ × (Bytes → Received Event))
common_read_fns =
    (packet_id_keep_alive, read_keep_alive)
    ∷ (packet_id_chat_message, read_chat_message)
    ∷ (packet_id_entity_action, read_entity_action)
    ∷ (packet_id_use_entity, read_use_entity)
    ∷ (packet_id_respawn, read_respawn)
    ∷ (packet_id_player_position, read_player_position)
    ∷ (packet_id_player_look, read_player_look)
    ∷ (packet_id_player_block_hit, read_player_block_hit)
    ∷ (packet_id_player_block_interact, read_player_block_interact)
    ∷ (packet_id_entity_animation, read_entity_animation)
    ∷ (packet_id_window_transaction, read_window_transaction)
    ∷ (packet_id_sign_update, read_sign_update)
    ∷ (packet_id_disconnect, read_disconnect)
    ∷ []

unfoldable pub server_read_fns : List (ℕ × (Bytes → Received Event))
server_read_fns =
    (packet_id_login, server_read_login)
    ∷ (packet_id_handshake, server_read_handshake)
    ∷ (packet_id_player, read_player)
    ∷ (packet_id_player_position_look, server_read_player_position_look)
    ∷ (packet_id_window_click, read_window_click)
    ∷ (packet_id_holding_change, read_holding_change)
    ∷ (packet_id_window_close, read_window_close)
    ∷ (packet_id_server_list_ping, read_server_list_ping)
    ∷ []

unfoldable pub client_read_fns : List (ℕ × (Bytes → Received Event))
client_read_fns =
    (packet_id_login, client_read_login)
    ∷ (packet_id_handshake, client_read_handshake)
    ∷ (packet_id_time_update, read_time_update)
    ∷ (packet_id_entity_equipment, read_entity_equipment)
    ∷ (packet_id_spawn_position, read_spawn_position)
    ∷ (packet_id_update_health, read_update_health)
    ∷ (packet_id_player_position_look, client_read_player_position_look)
    ∷ (packet_id_bed_use, read_bed_use)
    ∷ (packet_id_named_entity_spawn, read_named_entity_spawn)
    ∷ (packet_id_item_spawn, read_item_spawn)
    ∷ (packet_id_item_collect, read_item_collect)
    ∷ (packet_id_object_spawn, read_object_spawn)
    ∷ (packet_id_entity_spawn, read_entity_spawn)
    ∷ (packet_id_painting_spawn, read_painting_spawn)
    ∷ (packet_id_experience_orb, read_experience_orb)
    ∷ (packet_id_entity_velocity, read_entity_velocity)
    ∷ (packet_id_entity_destroy, read_entity_destroy)
    ∷ (packet_id_entity, read_entity)
    ∷ (packet_id_entity_rel_move, read_entity_rel_move)
    ∷ (packet_id_entity_look, read_entity_look)
    ∷ (packet_id_entity_look_and_rel_move, read_entity_look_and_rel_move)
    ∷ (packet_id_entity_teleport, read_entity_teleport)
    ∷ (packet_id_entity_status, read_entity_status)
    ∷ (packet_id_entity_metadata, read_entity_metadata)
    ∷ (packet_id_entity_effect, read_entity_effect)
    ∷ (packet_id_entity_remove_effect, read_entity_remove_effect)
    ∷ (packet_id_player_experience, read_player_experience)
    ∷ (packet_id_pre_chunk, read_pre_chunk)
    ∷ (packet_id_map_chunk, read_map_chunk)
    ∷ (packet_id_block_change_multi, read_block_change_multi)
    ∷ (packet_id_block_change, read_block_change)
    ∷ (packet_id_note_block_play, read_note_block_play)
    ∷ (packet_id_explosion, read_explosion)
    ∷ (packet_id_sound_effect, read_sound_effect)
    ∷ (packet_id_state, read_state)
    ∷ (packet_id_weather, read_weather)
    ∷ (packet_id_window_open, read_window_open)
    ∷ (packet_id_window_set_slot, read_window_set_slot)
    ∷ (packet_id_window_items, read_window_items)
    ∷ (packet_id_window_progress_bar, read_window_progress_bar)
    ∷ (packet_id_quickbar_slot_update, read_quickbar_slot_update)
    ∷ (packet_id_item_data, read_item_data)
    ∷ (packet_id_increment_statistic, read_increment_statistic)
    ∷ []

-- The reader if there is one, or else what is given.
abbrev pub use_fn : Option (Bytes → Received Event) → Bytes → Received Event → Received Event
use_fn (some fn) bs other = fn bs
use_fn none bs other = other

abbrev pub is_expected : List ℕ → ℕ → Bool
is_expected [] packet_id = false
is_expected (expected_id ∷ expected_ids) packet_id =
    if expected_id == packet_id then true else is_expected expected_ids packet_id

unfoldable pub server_handle_packet : ℕ → Bytes → Received Event
server_handle_packet packet_id bs =
    use_fn (lookup packet_id common_read_fns) bs
      (use_fn (lookup packet_id server_read_fns) bs (failed [] (unknown_packet_id packet_id)))

unfoldable pub server_read_packet : Bytes → Received Event
server_read_packet = read_with (1 ∷ []) server_handle_packet

unfoldable pub server_read_packet_expect : List ℕ → Bytes → Received Event
server_read_packet_expect expected_ids = read_with (1 ∷ []) (λ packet_id.
    if is_expected expected_ids packet_id
    then server_handle_packet packet_id
    else (λ rest. failed [] (unexpected_packet_id packet_id)))

unfoldable pub client_handle_packet : ℕ → Bytes → Received Event
client_handle_packet packet_id bs =
    use_fn (lookup packet_id common_read_fns) bs
      (use_fn (lookup packet_id client_read_fns) bs (failed [] (unknown_packet_id packet_id)))

unfoldable pub client_read_packet : Bytes → Received Event
client_read_packet = read_with (1 ∷ []) client_handle_packet

unfoldable pub client_read_packet_expect : List ℕ → Bytes → Received Event
client_read_packet_expect expected_ids = read_with (1 ∷ []) (λ packet_id.
    if is_expected expected_ids packet_id
    then client_handle_packet packet_id
    else (λ rest. failed [] (unexpected_packet_id packet_id)))
