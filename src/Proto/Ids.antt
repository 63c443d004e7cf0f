-- ===== src/Proto/Ids.antt =====
-- The packet identifiers of src/chunkymonkey/proto/proto.go, the first byte of every packet.
use chunkymonkey.Base.{ℕ}

abbrev pub protocol_version : ℕ
protocol_version = 17

abbrev pub packet_id_keep_alive : ℕ
packet_id_keep_alive = 0x00

abbrev pub packet_id_login : ℕ
packet_id_login = 0x01

abbrev pub packet_id_handshake : ℕ
packet_id_handshake = 0x02

abbrev pub packet_id_chat_message : ℕ
packet_id_chat_message = 0x03

abbrev pub packet_id_time_update : ℕ
packet_id_time_update = 0x04

abbrev pub packet_id_entity_equipment : ℕ
packet_id_entity_equipment = 0x05

abbrev pub packet_id_spawn_position : ℕ
packet_id_spawn_position = 0x06

abbrev pub packet_id_use_entity : ℕ
packet_id_use_entity = 0x07

abbrev pub packet_id_update_health : ℕ
packet_id_update_health = 0x08

abbrev pub packet_id_respawn : ℕ
packet_id_respawn = 0x09

abbrev pub packet_id_player : ℕ
packet_id_player = 0x0a

abbrev pub packet_id_player_position : ℕ
packet_id_player_position = 0x0b

abbrev pub packet_id_player_look : ℕ
packet_id_player_look = 0x0c

abbrev pub packet_id_player_position_look : ℕ
packet_id_player_position_look = 0x0d

abbrev pub packet_id_player_block_hit : ℕ
packet_id_player_block_hit = 0x0e

abbrev pub packet_id_player_block_interact : ℕ
packet_id_player_block_interact = 0x0f

abbrev pub packet_id_holding_change : ℕ
packet_id_holding_change = 0x10

abbrev pub packet_id_bed_use : ℕ
packet_id_bed_use = 0x11

abbrev pub packet_id_entity_animation : ℕ
packet_id_entity_animation = 0x12

abbrev pub packet_id_entity_action : ℕ
packet_id_entity_action = 0x13

abbrev pub packet_id_named_entity_spawn : ℕ
packet_id_named_entity_spawn = 0x14

abbrev pub packet_id_item_spawn : ℕ
packet_id_item_spawn = 0x15

abbrev pub packet_id_item_collect : ℕ
packet_id_item_collect = 0x16

abbrev pub packet_id_object_spawn : ℕ
packet_id_object_spawn = 0x17

abbrev pub packet_id_entity_spawn : ℕ
packet_id_entity_spawn = 0x18

abbrev pub packet_id_painting_spawn : ℕ
packet_id_painting_spawn = 0x19

abbrev pub packet_id_experience_orb : ℕ
packet_id_experience_orb = 0x1a

abbrev pub packet_id_entity_velocity : ℕ
packet_id_entity_velocity = 0x1c

abbrev pub packet_id_entity_destroy : ℕ
packet_id_entity_destroy = 0x1d

abbrev pub packet_id_entity : ℕ
packet_id_entity = 0x1e

abbrev pub packet_id_entity_rel_move : ℕ
packet_id_entity_rel_move = 0x1f

abbrev pub packet_id_entity_look : ℕ
packet_id_entity_look = 0x20

abbrev pub packet_id_entity_look_and_rel_move : ℕ
packet_id_entity_look_and_rel_move = 0x21

abbrev pub packet_id_entity_teleport : ℕ
packet_id_entity_teleport = 0x22

abbrev pub packet_id_entity_status : ℕ
packet_id_entity_status = 0x26

abbrev pub packet_id_entity_metadata : ℕ
packet_id_entity_metadata = 0x28

abbrev pub packet_id_entity_effect : ℕ
packet_id_entity_effect = 0x29

abbrev pub packet_id_entity_remove_effect : ℕ
packet_id_entity_remove_effect = 0x2a

abbrev pub packet_id_player_experience : ℕ
packet_id_player_experience = 0x2b

abbrev pub packet_id_pre_chunk : ℕ
packet_id_pre_chunk = 0x32

abbrev pub packet_id_map_chunk : ℕ
packet_id_map_chunk = 0x33

abbrev pub packet_id_block_change_multi : ℕ
packet_id_block_change_multi = 0x34

abbrev pub packet_id_block_change : ℕ
packet_id_block_change = 0x35

abbrev pub packet_id_note_block_play : ℕ
packet_id_note_block_play = 0x36

abbrev pub packet_id_explosion : ℕ
packet_id_explosion = 0x3c

abbrev pub packet_id_sound_effect : ℕ
packet_id_sound_effect = 0x3d

abbrev pub packet_id_state : ℕ
packet_id_state = 0x46

abbrev pub packet_id_weather : ℕ
packet_id_weather = 0x47

abbrev pub packet_id_window_open : ℕ
packet_id_window_open = 0x64

abbrev pub packet_id_window_close : ℕ
packet_id_window_close = 0x65

abbrev pub packet_id_window_click : ℕ
packet_id_window_click = 0x66

abbrev pub packet_id_window_set_slot : ℕ
packet_id_window_set_slot = 0x67

abbrev pub packet_id_window_items : ℕ
packet_id_window_items = 0x68

abbrev pub packet_id_window_progress_bar : ℕ
packet_id_window_progress_bar = 0x69

abbrev pub packet_id_window_transaction : ℕ
packet_id_window_transaction = 0x6a

abbrev pub packet_id_quickbar_slot_update : ℕ
packet_id_quickbar_slot_update = 0x6b

abbrev pub packet_id_sign_update : ℕ
packet_id_sign_update = 0x82

abbrev pub packet_id_item_data : ℕ
packet_id_item_data = 0x83

abbrev pub packet_id_increment_statistic : ℕ
packet_id_increment_statistic = 0xc8

abbrev pub packet_id_user_list_item : ℕ
packet_id_user_list_item = 0xc9

abbrev pub packet_id_server_list_ping : ℕ
packet_id_server_list_ping = 0xfe

abbrev pub packet_id_disconnect : ℕ
packet_id_disconnect = 0xff
