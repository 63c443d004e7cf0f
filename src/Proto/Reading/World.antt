-- ===== src/Proto/Reading/World.antt =====
-- What a server sends about the game, its blocks and its windows is read by the readers of a client.
use chunkymonkey.Base.{
  ℕ, ◌*◌, ◌^◌, ◌<◌, ◌≡◌, sym, ap, ◌∙◌, Bool, true, false, List, [], ◌∷◌, ◌++◌, arith, ◌==◌, length,
}
use chunkymonkey.Base.Words.{u8, u16, u32, lt16, lt32, sext8_32}
use chunkymonkey.Coords.{chunk_size_h, ChunkXz, BlockXyz, block_data}
use chunkymonkey.Proto.Wire.{Bytes, InRange, eof, received, failed}
use chunkymonkey.Proto.Wire.ReadsBack.{
  read_or-put, read_array_or-put, IsString16, read_string16-write, read_or-put_then,
  read_string16-write_then, put_fields-append, put_fields-regroup,
}
use chunkymonkey.Proto.Event.{
  block_xyz, Event, packet_player_position, packet_player_look, packet_spawn_position,
}
use chunkymonkey.Proto.Session.{
  write_time_update, read_time_update, write_update_health, read_update_health,
  write_player_experience, read_player_experience, write_state, read_state,
  write_increment_statistic, read_increment_statistic, server_write_login, client_read_login,
  server_write_handshake, client_read_handshake, write_spawn_position, read_spawn_position,
}
use chunkymonkey.Proto.Player.{
  server_write_player_position_look, client_read_player_position_look, write_bed_use, read_bed_use,
}
use chunkymonkey.Proto.World.{
  write_pre_chunk, read_pre_chunk, write_block_change, read_block_change, write_note_block_play,
  read_note_block_play, write_sound_effect, read_sound_effect, write_map_chunk, read_map_chunk,
  write_explosion, read_explosion,
}
use chunkymonkey.Proto.Windows.{
  write_window_progress_bar, read_window_progress_bar, write_quickbar_slot_update,
  read_quickbar_slot_update, write_window_open, read_window_open, write_window_set_slot,
  read_window_set_slot, write_window_items, read_window_items, write_item_data, read_item_data,
}
use chunkymonkey.Proto.Dispatch.{common_read_fns, client_read_fns, client_handle_packet}
use chunkymonkey.Proto.Sent.World.{
  WorldSends, time_update, update_health, player_experience, state, increment_statistic, pre_chunk,
  block_change, note_block_play, sound_effect, window_progress_bar, quickbar_slot_update,
  server_login, server_handshake, spawn_position, server_player_position_look, bed_use, map_chunk,
  explosion, window_open, window_set_slot, window_clear_slot, window_items, item_data_packet,
}
use chunkymonkey.Proto.Reading.Both.{byte_to_bool-bool_to_byte, on_first}
use chunkymonkey.Proto.Reading.Items.{read_items-put, read_offsets-put}
use native.Mathlib.Nat.{mod-lt, mod-eq_of_lt}

empty_string : IsString16 []
empty_string = (omega arith, tt)

height-InRange :
    (p : BlockXyz)
    → InRange ((4, p.x) ∷ (1, p.y) ∷ (4, p.z) ∷ [])
    → InRange ((4, p.x) ∷ (4, sext8_32 p.y) ∷ (4, p.z) ∷ [])
unfolding InRange
height-InRange p h = (h.0, (ground arith, h.1.1))

height_back :
    (p : BlockXyz) → InRange ((4, p.x) ∷ (1, p.y) ∷ (4, p.z) ∷ []) → u8 (sext8_32 p.y) ≡ p.y
unfolding InRange
height_back p h = ground (arith, h.1.0)

chunk-InRange :
    (loc : ChunkXz) (n : ℕ)
    → n < 2 ^ 31
    → InRange (
        (4, u32 (loc.x * chunk_size_h))
        ∷ (2, 0)
        ∷ (4, u32 (loc.z * chunk_size_h))
        ∷ (1, 15)
        ∷ (1, 127)
        ∷ (1, 15)
        ∷ (4, n)
        ∷ [])
unfolding InRange
chunk-InRange loc n h = (
  mod-lt _ (omega arith),
  (omega arith, (mod-lt _ (omega arith), (omega arith, (omega arith, (omega arith, omega arith))))),
)

fits8 : (a b n : ℕ) → InRange ((2, a) ∷ (2, b) ∷ (1, n) ∷ []) → u8 n ≡ n
unfolding InRange
fits8 a b n h = mod-eq_of_lt h.1.1

fits16 : (n : ℕ) → n < 2 ^ 15 → u16 n ≡ n
fits16 n h = omega arith

fits32 : (n : ℕ) → n < 2 ^ 31 → u32 n ≡ n
fits32 n h = omega arith

not_negative16 : (n : ℕ) → n < 2 ^ 15 → lt16 n 0 ≡ false
not_negative16 n h = ground arith

not_negative32 : (n : ℕ) → n < 2 ^ 31 → lt32 n 0 ≡ false
not_negative32 n h = ground arith

positive_type : (a : ℕ) → lt16 0 a ≡ true → (a == 0xffff) ≡ false
positive_type a h = ground arith

pub world_reads :
    (bs : Bytes) (es : List Event)
    → WorldSends bs es
    → (rest : Bytes) → on_first client_handle_packet (failed [] eof) (bs ++ rest) ≡ received es rest
unfolding client_handle_packet common_read_fns client_read_fns write_time_update read_time_update
    write_update_health read_update_health write_player_experience read_player_experience
    write_state read_state write_increment_statistic read_increment_statistic write_pre_chunk
    read_pre_chunk write_block_change read_block_change write_note_block_play read_note_block_play
    write_sound_effect read_sound_effect write_window_progress_bar read_window_progress_bar
    write_quickbar_slot_update read_quickbar_slot_update server_write_login client_read_login
    server_write_handshake client_read_handshake write_spawn_position read_spawn_position
    server_write_player_position_look client_read_player_position_look write_bed_use read_bed_use
    write_map_chunk read_map_chunk write_explosion read_explosion write_window_open read_window_open
    write_window_set_slot read_window_set_slot write_window_items read_window_items write_item_data
    read_item_data
world_reads _ _ (time_update time h) rest = read_or-put _ _ _ rest h
world_reads _ _ (update_health health food food_saturation h) rest = read_or-put _ _ _ rest h
world_reads _ _ (player_experience experience level total_experience h) rest =
    read_or-put _ _ _ rest h
world_reads _ _ (state reason game_mode h) rest = read_or-put _ _ _ rest h
world_reads _ _ (increment_statistic statistic_id delta h) rest = read_or-put _ _ _ rest h
world_reads _ _ (pre_chunk chunk_loc mode h) rest = read_or-put _ _ _ rest h
world_reads _ _ (block_change block_loc block_type block_meta_data h) rest =
    read_or-put _ _ _ rest h
world_reads _ _ (note_block_play position instrument pitch h) rest = read_or-put _ _ _ rest h
world_reads _ _ (sound_effect sound position item_data h) rest = read_or-put _ _ _ rest h
world_reads _ _ (window_progress_bar window_id prg_bar_id value h) rest = read_or-put _ _ _ rest h
world_reads _ _ (quickbar_slot_update slot item_id count item_data h) rest =
    read_or-put _ _ _ rest h
world_reads _ _
      (server_login entity_id map_seed server_mode dimension difficulty world_height max_players h
        k)
      rest =
    read_or-put_then _ _ _ _ rest h
    ∙ read_string16-write_then [] _ _ rest empty_string
    ∙ read_or-put _ _ _ rest k
world_reads _ _ (server_handshake reply h) rest = read_string16-write reply _ rest h
world_reads _ _ (spawn_position position h) rest =
    read_or-put _ _ _ rest (height-InRange position h)
    ∙ ap (λ (y : ℕ). received (packet_spawn_position (block_xyz position.x y position.z) ∷ []) rest)
        (height_back position h)
world_reads _ _ (server_player_position_look position stance look on_ground h) rest =
    read_or-put _ _ _ rest h
    ∙ ap
        (λ (b : Bool).
          received (packet_player_position position stance b ∷ packet_player_look look b ∷ []) rest)
        (byte_to_bool-bool_to_byte on_ground)
world_reads _ _ (bed_use flag bed_loc h) rest = read_or-put _ _ _ rest h
world_reads _ _ (map_chunk compress chunk_loc blocks block_data block_light sky_light bs e h) rest =
    rw (e, fits32 (length bs) h.0)
      (read_or-put_then _ _ _ _ rest (chunk-InRange chunk_loc (length bs) h.0)
        ∙ rw (not_negative32 (length bs) h.0) (read_array_or-put (failed [] eof) 1 bs _ rest h.1))
world_reads _ _ (explosion position power block_offsets h short k) rest =
    rw (fits32 (length block_offsets) short) (
      read_or-put_then _ _ _ _ rest h
      ∙ rw (not_negative32 (length block_offsets) short) (read_offsets-put block_offsets _ rest k))
world_reads _ _ (window_open window_id inv_type_id window_title num_slots h k l) rest =
    read_or-put_then _ _ _ _ rest h
    ∙ read_string16-write_then window_title _ _ rest k
    ∙ read_or-put _ _ _ rest l
world_reads _ _ (window_set_slot window_id slot item_type_id amount item_data h positive k) rest =
    rw positive (
      ap (λ (t : Bytes). read_window_set_slot (t ++ rest))
        (put_fields-regroup ((1, window_id) ∷ (2, slot) ∷ []) ((2, item_type_id) ∷ [])
          ((1, amount) ∷ (2, item_data) ∷ []))
      ∙ read_or-put_then _ _ _ _ rest h
      ∙ rw (positive_type item_type_id positive) (read_or-put _ _ _ rest k))
world_reads _ _ (window_clear_slot window_id slot item_type_id amount item_data h no_item) rest =
    rw no_item (
      ap (λ (t : Bytes). read_window_set_slot (t ++ rest))
        (sym (put_fields-append ((1, window_id) ∷ (2, slot) ∷ []) ((2, 0xffff) ∷ [])))
      ∙ read_or-put _ _ _ rest h)
world_reads _ _ (window_items window_id items h short k) rest = rw (fits16 (length items) short) (
    read_or-put_then _ _ _ _ rest h
    ∙ rw (not_negative16 (length items) short) (read_items-put items 0 0 [] _ rest k))
world_reads _ _ (item_data_packet item_type_id item_data_id item_bytes h k) rest =
    rw (fits8 item_type_id item_data_id (length item_bytes) h)
      (read_or-put_then _ _ _ _ rest h ∙ read_array_or-put (failed [] eof) 1 item_bytes _ rest k)
