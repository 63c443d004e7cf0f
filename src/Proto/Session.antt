-- ===== src/Proto/Session.antt =====
-- Packets of src/chunkymonkey/proto/proto.go about the connection and the state of the game.
use chunkymonkey.Base.{
  ℕ, ◌⊎◌, inl, inr, Bool, true, false, not, ◌&&◌, List, [], ◌∷◌, ◌++◌, ◌==◌, if◌then◌else◌,
}
use chunkymonkey.Base.Words.{u8, sext8_32}
use chunkymonkey.Coords.{BlockXyz}
use chunkymonkey.Proto.Wire.{
  Bytes, Error, Received, put_fields, write_string16, read_with, read_string16, unsupported_version,
  illegal_char, color_tag_end, received, failed,
}
use chunkymonkey.Proto.Ids.{
  protocol_version, packet_id_keep_alive, packet_id_login, packet_id_handshake,
  packet_id_chat_message, packet_id_time_update, packet_id_spawn_position, packet_id_update_health,
  packet_id_respawn, packet_id_player_experience, packet_id_state, packet_id_increment_statistic,
  packet_id_user_list_item, packet_id_server_list_ping, packet_id_disconnect,
}
use chunkymonkey.Proto.Event.{
  block_xyz, Event, bool_to_byte, byte_to_bool, packet_keep_alive, packet_chat_message,
  packet_respawn, packet_disconnect, packet_server_login, packet_server_handshake,
  packet_server_list_ping, packet_client_login, packet_client_handshake, packet_time_update,
  packet_spawn_position, packet_update_health, packet_player_experience, packet_state,
  packet_increment_statistic, packet_user_list_item,
}

unfoldable pub write_keep_alive : ℕ → Bytes
write_keep_alive id = packet_id_keep_alive ∷ put_fields ((4, id) ∷ [])

unfoldable pub read_keep_alive : Bytes → Received Event
read_keep_alive = read_with (4 ∷ []) (λ id rest. received (packet_keep_alive id ∷ []) rest)

unfoldable pub write_time_update : ℕ → Bytes
write_time_update time = packet_id_time_update ∷ put_fields ((8, time) ∷ [])

unfoldable pub read_time_update : Bytes → Received Event
read_time_update = read_with (8 ∷ []) (λ time rest. received (packet_time_update time ∷ []) rest)

unfoldable pub write_update_health : ℕ → ℕ → ℕ → Bytes
write_update_health health food food_saturation =
    packet_id_update_health ∷ put_fields ((2, health) ∷ (2, food) ∷ (4, food_saturation) ∷ [])

unfoldable pub read_update_health : Bytes → Received Event
read_update_health = read_with (2 ∷ 2 ∷ 4 ∷ []) (λ health food food_saturation rest.
    received (packet_update_health health food food_saturation ∷ []) rest)

unfoldable pub write_respawn : ℕ → ℕ → ℕ → ℕ → ℕ → Bytes
write_respawn dimension unknown game_type world_height map_seed =
    packet_id_respawn
    ∷ put_fields
        ((1, dimension) ∷ (1, unknown) ∷ (1, game_type) ∷ (2, world_height) ∷ (8, map_seed) ∷ [])

unfoldable pub read_respawn : Bytes → Received Event
read_respawn =
    read_with (1 ∷ 1 ∷ 1 ∷ 2 ∷ 8 ∷ []) (λ dimension unknown game_type world_height map_seed rest.
      received (packet_respawn dimension unknown game_type world_height map_seed ∷ []) rest)

unfoldable pub write_player_experience : ℕ → ℕ → ℕ → Bytes
write_player_experience experience level total_experience =
    packet_id_player_experience
    ∷ put_fields ((1, experience) ∷ (1, level) ∷ (2, total_experience) ∷ [])

unfoldable pub read_player_experience : Bytes → Received Event
read_player_experience = read_with (1 ∷ 1 ∷ 2 ∷ []) (λ experience level total_experience rest.
    received (packet_player_experience experience level total_experience ∷ []) rest)

unfoldable pub write_state : ℕ → ℕ → Bytes
write_state reason game_mode = packet_id_state ∷ put_fields ((1, reason) ∷ (1, game_mode) ∷ [])

unfoldable pub read_state : Bytes → Received Event
read_state =
    read_with (1 ∷ 1 ∷ [])
      (λ reason game_mode rest. received (packet_state reason game_mode ∷ []) rest)

unfoldable pub write_increment_statistic : ℕ → ℕ → Bytes
write_increment_statistic statistic_id delta =
    packet_id_increment_statistic ∷ put_fields ((4, statistic_id) ∷ (1, delta) ∷ [])

unfoldable pub read_increment_statistic : Bytes → Received Event
read_increment_statistic =
    read_with (4 ∷ 1 ∷ []) (λ statistic_id delta rest.
      received (packet_increment_statistic statistic_id delta ∷ []) rest)

abbrev pub common_write_login : ℕ → List ℕ → ℕ → ℕ → ℕ → ℕ → ℕ → ℕ → Bytes
common_write_login version_or_entity_id str map_seed server_mode dimension difficulty world_height
      max_players =
    put_fields ((4, version_or_entity_id) ∷ [])
    ++ (write_string16 str
        ++ put_fields (
            (8, map_seed)
            ∷ (4, server_mode)
            ∷ (1, dimension)
            ∷ (1, difficulty)
            ∷ (1, world_height)
            ∷ (1, max_players)
            ∷ []))

unfoldable pub server_write_login : ℕ → ℕ → ℕ → ℕ → ℕ → ℕ → ℕ → Bytes
server_write_login entity_id map_seed server_mode dimension difficulty world_height max_players =
    packet_id_login
    ∷ common_write_login entity_id [] map_seed server_mode dimension difficulty world_height
        max_players

unfoldable pub client_write_login : List ℕ → List ℕ → Bytes
client_write_login username password =
    packet_id_login ∷ common_write_login protocol_version username 0 0 0 0 0 0

abbrev pub common_read_login :
    (ℕ → List ℕ → ℕ → ℕ → ℕ → ℕ → ℕ → ℕ → Bytes → Received Event) → Bytes → Received Event
common_read_login k = read_with (4 ∷ []) (λ version_or_entity_id. read_string16 (λ str.
    read_with (8 ∷ 4 ∷ 1 ∷ 1 ∷ 1 ∷ 1 ∷ [])
      (λ map_seed server_mode dimension unknown world_height max_players.
        k version_or_entity_id str map_seed server_mode dimension unknown world_height
          max_players)))

unfoldable pub server_read_login : Bytes → Received Event
server_read_login =
    common_read_login
      (λ version username map_seed server_mode dimension unknown world_height max_players rest.
        if version == protocol_version
        then received (packet_server_login username ∷ []) rest
        else failed [] (unsupported_version version))

unfoldable pub client_read_login : Bytes → Received Event
client_read_login =
    common_read_login
      (λ entity_id str map_seed server_mode dimension unknown world_height max_players rest.
        received
          (packet_client_login entity_id map_seed server_mode dimension unknown world_height
              max_players
            ∷ [])
          rest)

unfoldable pub server_write_handshake : List ℕ → Bytes
server_write_handshake reply = packet_id_handshake ∷ write_string16 reply

unfoldable pub server_read_handshake : Bytes → Received Event
server_read_handshake =
    read_string16 (λ username rest. received (packet_server_handshake username ∷ []) rest)

unfoldable pub client_read_handshake : Bytes → Received Event
client_read_handshake =
    read_string16 (λ server_id rest. received (packet_client_handshake server_id ∷ []) rest)

-- The expression is a repeated class without anchors: it matches the empty string in any message.
abbrev pub check_chat_message : List ℕ → Bool
check_chat_message message = true

-- A section sign and one character that is no newline at the end.
abbrev pub check_colors : List ℕ → Bool
check_colors [] = false
check_colors (a ∷ []) = false
check_colors (a ∷ b ∷ []) = (a == 0xa7) && not (b == 10)
check_colors (a ∷ b ∷ c ∷ s) = check_colors (b ∷ c ∷ s)

unfoldable pub write_chat_message : List ℕ → Error ⊎ Bytes
write_chat_message message =
    if check_chat_message message
    then if check_colors message
      then inl color_tag_end
      else inr (packet_id_chat_message ∷ write_string16 message)
    else inl illegal_char

unfoldable pub read_chat_message : Bytes → Received Event
read_chat_message = read_string16 (λ message rest.
    if check_chat_message message
    then if check_colors message
      then failed [] color_tag_end
      else received (packet_chat_message message ∷ []) rest
    else failed [] illegal_char)

-- The height is sent as an int32, and cut to an int8 when it is read.
unfoldable pub write_spawn_position : BlockXyz → Bytes
write_spawn_position position =
    packet_id_spawn_position
    ∷ put_fields ((4, position.x) ∷ (4, sext8_32 position.y) ∷ (4, position.z) ∷ [])

unfoldable pub read_spawn_position : Bytes → Received Event
read_spawn_position =
    read_with (4 ∷ 4 ∷ 4 ∷ [])
      (λ x y z rest. received (packet_spawn_position (block_xyz x (u8 y) z) ∷ []) rest)

unfoldable pub write_user_list_item : List ℕ → Bool → ℕ → Bytes
write_user_list_item username online ping_ms =
    packet_id_user_list_item
    ∷ (write_string16 username ++ put_fields ((1, bool_to_byte online) ∷ (2, ping_ms) ∷ []))

unfoldable pub read_user_list_item : Bytes → Received Event
read_user_list_item = read_string16 (λ username. read_with (1 ∷ 2 ∷ []) (λ online ping_ms rest.
    received (packet_user_list_item username (byte_to_bool online) ping_ms ∷ []) rest))

unfoldable pub write_server_list_ping : Bytes
write_server_list_ping = packet_id_server_list_ping ∷ []

unfoldable pub read_server_list_ping : Bytes → Received Event
read_server_list_ping rest = received (packet_server_list_ping ∷ []) rest

unfoldable pub write_disconnect : List ℕ → Bytes
write_disconnect reason = packet_id_disconnect ∷ write_string16 reason

unfoldable pub read_disconnect : Bytes → Received Event
read_disconnect = read_string16 (λ reason rest. received (packet_disconnect reason ∷ []) rest)
