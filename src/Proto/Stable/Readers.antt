-- ===== src/Proto/Stable/Readers.antt =====
-- The readers of src/chunkymonkey/proto/proto.go that are more than one struct do not depend on what
-- follows.
use chunkymonkey.Base.{ℕ, refl, inl, inr, [], ◌∷◌, ◌==◌}
use chunkymonkey.Base.Words.{lt16, le16, lt32}
use chunkymonkey.Proto.Wire.{Bytes, eof, failed}
use chunkymonkey.Proto.Wire.Stable.{
  Stable, read_or-Stable, read_array_or-Stable, read_array-Stable, read_string16-Stable, if-Stable,
  if-Extends, read_with-Stable,
}
use chunkymonkey.Proto.Ids.{protocol_version}
use chunkymonkey.Proto.Event.{block_xyz, Event, byte_to_bool, packet_bed_use}
use chunkymonkey.Proto.Session.{
  server_read_login, client_read_login, server_read_handshake, client_read_handshake, check_colors,
  read_chat_message, read_spawn_position, read_server_list_ping, read_disconnect,
}
use chunkymonkey.Proto.Player.{
  client_read_player_position_look, server_read_player_position_look, read_player_block_interact,
  read_bed_use,
}
use chunkymonkey.Proto.Entity.{read_entity_remove_effect, read_entity_metadata}
use chunkymonkey.Proto.Spawn.{
  read_named_entity_spawn, read_object_spawn, read_entity_spawn, read_painting_spawn,
}
use chunkymonkey.Proto.World.{read_map_chunk, read_block_change_multi, read_explosion}
use chunkymonkey.Proto.Windows.{
  read_window_open, read_window_click, read_window_set_slot, read_window_items, read_sign_update,
  read_item_data,
}
use chunkymonkey.Proto.Stable.Loops.{
  read_entity_metadata_field-Stable, read_offsets-Stable, read_items-Stable,
}

pub read_chat_message-Stable :
    (n : ℕ) (more : Bytes) → Stable n more read_chat_message read_chat_message
unfolding read_chat_message
read_chat_message-Stable n more =
    read_string16-Stable n more _ _
      (λ message rest le. if-Extends more (check_colors message) _ _ _ _ (inr refl) refl)

pub read_player_block_interact-Stable :
    (n : ℕ) (more : Bytes) → Stable n more read_player_block_interact read_player_block_interact
unfolding read_player_block_interact
read_player_block_interact-Stable n more = read_with-Stable Event n more _ _ _ (λ x y z face a.
    if-Stable n more (le16 0 a) _ _ _ _ (read_with-Stable Event n more _ _ _ (λ b c rest le. refl))
      (λ rest le. refl))

pub read_sign_update-Stable :
    (n : ℕ) (more : Bytes) → Stable n more read_sign_update read_sign_update
unfolding read_sign_update
read_sign_update-Stable n more = read_with-Stable Event n more _ _ _ (λ x y z.
    read_string16-Stable n more _ _ (λ a. read_string16-Stable n more _ _ (λ b.
      read_string16-Stable n more _ _ (λ c. read_string16-Stable n more _ _ (λ d rest le. refl)))))

pub read_disconnect-Stable : (n : ℕ) (more : Bytes) → Stable n more read_disconnect read_disconnect
unfolding read_disconnect
read_disconnect-Stable n more = read_string16-Stable n more _ _ (λ reason rest le. refl)

pub server_read_login-Stable :
    (n : ℕ) (more : Bytes) → Stable n more server_read_login server_read_login
unfolding server_read_login
server_read_login-Stable n more = read_with-Stable Event n more _ _ _ (λ version.
    read_string16-Stable n more _ _ (λ str.
      read_with-Stable Event n more _ _ _ (λ a b c d e f rest le.
        if-Extends more (version == protocol_version) _ _ _ _ refl (inr refl))))

pub client_read_login-Stable :
    (n : ℕ) (more : Bytes) → Stable n more client_read_login client_read_login
unfolding client_read_login
client_read_login-Stable n more = read_with-Stable Event n more _ _ _ (λ version.
    read_string16-Stable n more _ _
      (λ str. read_with-Stable Event n more _ _ _ (λ a b c d e f rest le. refl)))

pub server_read_handshake-Stable :
    (n : ℕ) (more : Bytes) → Stable n more server_read_handshake server_read_handshake
unfolding server_read_handshake
server_read_handshake-Stable n more = read_string16-Stable n more _ _ (λ s rest le. refl)

pub client_read_handshake-Stable :
    (n : ℕ) (more : Bytes) → Stable n more client_read_handshake client_read_handshake
unfolding client_read_handshake
client_read_handshake-Stable n more = read_string16-Stable n more _ _ (λ s rest le. refl)

pub server_read_player_position_look-Stable :
    (n : ℕ) (more : Bytes)
    → Stable n more server_read_player_position_look server_read_player_position_look
unfolding server_read_player_position_look
server_read_player_position_look-Stable n more =
    read_with-Stable Event n more _ _ _ (λ x y1 y2 z yaw pitch on_ground rest le. refl)

pub client_read_player_position_look-Stable :
    (n : ℕ) (more : Bytes)
    → Stable n more client_read_player_position_look client_read_player_position_look
unfolding client_read_player_position_look
client_read_player_position_look-Stable n more =
    read_with-Stable Event n more _ _ _ (λ x y1 y2 z yaw pitch on_ground rest le. refl)

pub read_spawn_position-Stable :
    (n : ℕ) (more : Bytes) → Stable n more read_spawn_position read_spawn_position
unfolding read_spawn_position
read_spawn_position-Stable n more = read_with-Stable Event n more _ _ _ (λ x y z rest le. refl)

pub read_server_list_ping-Stable :
    (n : ℕ) (more : Bytes) → Stable n more read_server_list_ping read_server_list_ping
unfolding read_server_list_ping
read_server_list_ping-Stable n more = λ rest le. refl

pub read_bed_use-Stable : (n : ℕ) (more : Bytes) → Stable n more read_bed_use read_bed_use
unfolding read_bed_use
read_bed_use-Stable n more =
    read_or-Stable (failed (packet_bed_use (byte_to_bool 0) (block_xyz 0 0 0) ∷ []) eof) n more
      (λ s. inl refl) _ _ _ (λ a b c d rest le. refl)

pub read_named_entity_spawn-Stable :
    (n : ℕ) (more : Bytes) → Stable n more read_named_entity_spawn read_named_entity_spawn
unfolding read_named_entity_spawn
read_named_entity_spawn-Stable n more = read_with-Stable Event n more _ _ _ (λ i.
    read_string16-Stable n more _ _
      (λ name. read_with-Stable Event n more _ _ _ (λ a b c d e f rest le. refl)))

pub read_object_spawn-Stable :
    (n : ℕ) (more : Bytes) → Stable n more read_object_spawn read_object_spawn
unfolding read_object_spawn
read_object_spawn-Stable n more = read_with-Stable Event n more _ _ _ (λ i o x y z a.
    if-Stable n more (a == 0) _ _ _ _ (λ rest le. refl)
      (read_with-Stable Event n more _ _ _ (λ b c d rest le. refl)))

pub read_entity_spawn-Stable :
    (n : ℕ) (more : Bytes) → Stable n more read_entity_spawn read_entity_spawn
unfolding read_entity_spawn
read_entity_spawn-Stable n more =
    read_with-Stable Event n more _ _ _ (λ i m x y z yaw pitch.
      read_entity_metadata_field-Stable n more _ _ (λ m items rest le. refl))

pub read_painting_spawn-Stable :
    (n : ℕ) (more : Bytes) → Stable n more read_painting_spawn read_painting_spawn
unfolding read_painting_spawn
read_painting_spawn-Stable n more = read_with-Stable Event n more _ _ _ (λ i.
    read_string16-Stable n more _ _
      (λ title. read_with-Stable Event n more _ _ _ (λ a b c d rest le. refl)))

pub read_entity_metadata-Stable :
    (n : ℕ) (more : Bytes) → Stable n more read_entity_metadata read_entity_metadata
unfolding read_entity_metadata
read_entity_metadata-Stable n more =
    read_with-Stable Event n more _ _ _
      (λ i. read_entity_metadata_field-Stable n more _ _ (λ m items rest le. refl))

pub read_entity_remove_effect-Stable :
    (n : ℕ) (more : Bytes) → Stable n more read_entity_remove_effect read_entity_remove_effect
unfolding read_entity_remove_effect
read_entity_remove_effect-Stable n more = read_with-Stable Event n more _ _ _ (λ i e rest le. refl)

pub read_map_chunk-Stable : (n : ℕ) (more : Bytes) → Stable n more read_map_chunk read_map_chunk
unfolding read_map_chunk
read_map_chunk-Stable n more = read_with-Stable Event n more _ _ _ (λ x y z a b c size.
    if-Stable n more (lt32 size 0) _ _ _ _ (λ rest le. inr refl)
      (read_array-Stable n more 1 size _ _ (λ bs rest le. refl)))

pub read_block_change_multi-Stable :
    (n : ℕ) (more : Bytes) → Stable n more read_block_change_multi read_block_change_multi
unfolding read_block_change_multi
read_block_change_multi-Stable n more = read_with-Stable Event n more _ _ _ (λ x z count.
    if-Stable n more (lt16 count 0) _ _ _ _ (λ rest le. inr refl)
      (read_array_or-Stable _ n more (λ s. inl refl) 2 count _ _
        (λ locs.
          read_array_or-Stable _ n more (λ s. inl refl) 1 count _ _
            (λ types.
              read_array_or-Stable _ n more (λ s. inl refl) 1 count _ _
                (λ metadata rest le. refl)))))

pub read_explosion-Stable : (n : ℕ) (more : Bytes) → Stable n more read_explosion read_explosion
unfolding read_explosion
read_explosion-Stable n more = read_with-Stable Event n more _ _ _ (λ x y z p size.
    if-Stable n more (lt32 size 0) _ _ _ _ (λ rest le. inr refl)
      (read_offsets-Stable n more size _ _ (λ offsets rest le. refl)))

pub read_window_open-Stable :
    (n : ℕ) (more : Bytes) → Stable n more read_window_open read_window_open
unfolding read_window_open
read_window_open-Stable n more = read_with-Stable Event n more _ _ _ (λ i t.
    read_string16-Stable n more _ _
      (λ title. read_with-Stable Event n more _ _ _ (λ a rest le. refl)))

pub read_window_click-Stable :
    (n : ℕ) (more : Bytes) → Stable n more read_window_click read_window_click
unfolding read_window_click
read_window_click-Stable n more = read_with-Stable Event n more _ _ _ (λ a b c d e i.
    if-Stable n more (i == 0xffff) _ _ _ _ (λ rest le. refl)
      (read_with-Stable Event n more _ _ _ (λ x y rest le. refl)))

pub read_window_set_slot-Stable :
    (n : ℕ) (more : Bytes) → Stable n more read_window_set_slot read_window_set_slot
unfolding read_window_set_slot
read_window_set_slot-Stable n more = read_with-Stable Event n more _ _ _ (λ a b i.
    if-Stable n more (i == 0xffff) _ _ _ _ (λ rest le. refl)
      (read_with-Stable Event n more _ _ _ (λ x y rest le. refl)))

pub read_window_items-Stable :
    (n : ℕ) (more : Bytes) → Stable n more read_window_items read_window_items
unfolding read_window_items
read_window_items-Stable n more = read_with-Stable Event n more _ _ _ (λ i count.
    if-Stable n more (lt16 count 0) _ _ _ _ (λ rest le. inr refl)
      (read_items-Stable n more count 0 0 [] _ _ (λ items rest le. refl)))

pub read_item_data-Stable : (n : ℕ) (more : Bytes) → Stable n more read_item_data read_item_data
unfolding read_item_data
read_item_data-Stable n more =
    read_with-Stable Event n more _ _ _
      (λ a b size. read_array-Stable n more 1 size _ _ (λ bs rest le. refl))
