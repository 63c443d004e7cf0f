-- ===== src/Proto/Reading/Both.antt =====
-- Packets that both sides send are read by the common readers.
use chunkymonkey.Base.{
  ℕ, ◌≡◌, refl, ap, ◌∙◌, inr, Bool, true, false, List, [], ◌∷◌, ◌++◌, arith, ◌==◌,
}
use chunkymonkey.Base.Words.{le16}
use chunkymonkey.Proto.Wire.{Bytes, Received, write_string16, received}
use chunkymonkey.Proto.Wire.ReadsBack.{
  read_or-put, read_string16-write, read_or-put_then, read_string16-write_then,
}
use chunkymonkey.Proto.Ids.{packet_id_chat_message}
use chunkymonkey.Proto.Event.{
  Event, bool_to_byte, byte_to_bool, packet_use_entity, packet_player_position, packet_player_look,
  packet_window_transaction,
}
use chunkymonkey.Proto.Session.{
  write_keep_alive, read_keep_alive, write_respawn, read_respawn, check_colors, write_chat_message,
  read_chat_message, write_disconnect, read_disconnect,
}
use chunkymonkey.Proto.Player.{
  write_player_position, read_player_position, write_player_look, read_player_look,
  write_player_block_hit, read_player_block_hit, write_use_entity, read_use_entity,
  write_entity_animation, read_entity_animation, write_entity_action, read_entity_action,
  write_player_block_interact, read_player_block_interact,
}
use chunkymonkey.Proto.Windows.{
  write_window_transaction, read_window_transaction, write_sign_update, read_sign_update,
}
use chunkymonkey.Proto.Dispatch.{lookup, common_read_fns, use_fn}
use chunkymonkey.Proto.Sent.Both.{
  BothSend, keep_alive, respawn, player_position, player_look, player_block_hit, use_entity,
  entity_animation, entity_action, window_transaction, chat_message, player_block_interact,
  empty_hand_interact, sign_update, disconnect,
}

pub byte_to_bool-bool_to_byte : (b : Bool) → byte_to_bool (bool_to_byte b) ≡ b
byte_to_bool-bool_to_byte true = refl
byte_to_bool-bool_to_byte false = refl

-- A function of the first byte and the rest.
abbrev pub on_first : (ℕ → Bytes → Received Event) → Received Event → Bytes → Received Event
on_first f other [] = other
on_first f other (b ∷ bs) = f b bs

abbrev pub handle_common : Received Event → Bytes → Received Event
handle_common other = on_first (λ id bs. use_fn (lookup id common_read_fns) bs other) other

sent_chat :
    (message : List ℕ) (bs : Bytes)
    → write_chat_message message ≡ inr bs
    → (check_colors message ≡ false) × (bs ≡ packet_id_chat_message ∷ write_string16 message)
unfolding write_chat_message
sent_chat message bs e = ground arith

not_minus_one : (a : ℕ) → le16 0 a ≡ true → (a == 0xffff) ≡ false
not_minus_one a h = ground arith

pub handle_common_reads :
    (other : Received Event) (bs : Bytes) (es : List Event)
    → BothSend bs es
    → (rest : Bytes) → handle_common other (bs ++ rest) ≡ received es rest
unfolding common_read_fns write_keep_alive read_keep_alive write_respawn read_respawn
    write_player_position read_player_position write_player_look read_player_look
    write_player_block_hit read_player_block_hit write_use_entity read_use_entity
    write_entity_animation read_entity_animation write_entity_action read_entity_action
    write_window_transaction read_window_transaction read_chat_message write_player_block_interact
    read_player_block_interact write_sign_update read_sign_update write_disconnect read_disconnect
handle_common_reads other _ _ (keep_alive id h) rest = read_or-put _ _ _ rest h
handle_common_reads other _ _ (respawn dimension unknown game_type world_height map_seed h) rest =
    read_or-put _ _ _ rest h
handle_common_reads other _ _ (player_position position stance on_ground h) rest =
    read_or-put _ _ _ rest h
    ∙ ap (λ (b : Bool). received (packet_player_position position stance b ∷ []) rest)
        (byte_to_bool-bool_to_byte on_ground)
handle_common_reads other _ _ (player_look look on_ground h) rest =
    read_or-put _ _ _ rest h
    ∙ ap (λ (b : Bool). received (packet_player_look look b ∷ []) rest)
        (byte_to_bool-bool_to_byte on_ground)
handle_common_reads other _ _ (player_block_hit status block_loc face h) rest =
    read_or-put _ _ _ rest h
handle_common_reads other _ _ (use_entity user target left_click h) rest =
    read_or-put _ _ _ rest h
    ∙ ap (λ (b : Bool). received (packet_use_entity user target b ∷ []) rest)
        (byte_to_bool-bool_to_byte left_click)
handle_common_reads other _ _ (entity_animation entity_id animation h) rest =
    read_or-put _ _ _ rest h
handle_common_reads other _ _ (entity_action entity_id action h) rest = read_or-put _ _ _ rest h
handle_common_reads other _ _ (window_transaction window_id tx_id accepted h) rest =
    read_or-put _ _ _ rest h
    ∙ ap (λ (b : Bool). received (packet_window_transaction window_id tx_id b ∷ []) rest)
        (byte_to_bool-bool_to_byte accepted)
handle_common_reads other bs _ (chat_message message _ e h) rest =
    ap (λ (t : Bytes). handle_common other (t ++ rest)) (sent_chat message bs e).1
    ∙ read_string16-write message _ rest h
    ∙ rw ((sent_chat message bs e).0)
handle_common_reads other _ _
      (player_block_interact item_type_id block_loc face amount item_data h positive k) rest =
    rw (not_minus_one item_type_id positive)
      (read_or-put_then _ _ _ _ rest h ∙ rw positive (read_or-put _ _ _ rest k))
handle_common_reads other _ _ (empty_hand_interact block_loc face amount item_data h) rest =
    read_or-put_then _ _ _ _ rest h
handle_common_reads other _ _ (sign_update position line0 line1 line2 line3 h h0 h1 h2 h3) rest =
    read_or-put_then _ _ _ _ rest h
    ∙ read_string16-write_then line0 _ _ rest h0
    ∙ read_string16-write_then line1 _ _ rest h1
    ∙ read_string16-write_then line2 _ _ rest h2
    ∙ read_string16-write line3 _ rest h3
handle_common_reads other _ _ (disconnect reason h) rest = read_string16-write reason _ rest h
