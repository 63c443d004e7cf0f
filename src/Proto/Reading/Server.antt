-- ===== src/Proto/Reading/Server.antt =====
-- What a client sends is read by the readers of a server.
use chunkymonkey.Base.{◌≡◌, refl, ap, ◌∙◌, Bool, List, [], ◌∷◌, ◌++◌, arith, ne→==}
use chunkymonkey.Proto.Wire.{Bytes, InRange, eof, received, failed}
use chunkymonkey.Proto.Wire.ReadsBack.{read_or-put, read_or-put_then, read_string16-write_then}
use chunkymonkey.Proto.Ids.{protocol_version}
use chunkymonkey.Proto.Event.{
  Event, bool_to_byte, byte_to_bool, packet_player_position, packet_player_look, packet_player,
  packet_window_click,
}
use chunkymonkey.Proto.Session.{
  client_write_login, server_read_login, write_server_list_ping, read_server_list_ping,
}
use chunkymonkey.Proto.Player.{
  write_player, read_player, write_holding_change, read_holding_change,
  client_write_player_position_look, server_read_player_position_look,
}
use chunkymonkey.Proto.Windows.{
  write_window_close, read_window_close, write_window_click, read_window_click,
}
use chunkymonkey.Proto.Dispatch.{common_read_fns, server_read_fns, server_handle_packet}
use chunkymonkey.Proto.Sent.Clients.{
  ClientSends, player, holding_change, window_close, client_login, client_player_position_look,
  window_click, empty_slot_click, server_list_ping,
}
use chunkymonkey.Proto.Reading.Both.{byte_to_bool-bool_to_byte, on_first}

version-InRange : InRange ((4, protocol_version) ∷ [])
unfolding InRange
version-InRange = omega arith

zeros-InRange : InRange ((8, 0) ∷ (4, 0) ∷ (1, 0) ∷ (1, 0) ∷ (1, 0) ∷ (1, 0) ∷ [])
unfolding InRange
zeros-InRange =
    (omega arith, (omega arith, (omega arith, (omega arith, (omega arith, omega arith)))))

pub server_handle_reads :
    (bs : Bytes) (es : List Event)
    → ClientSends bs es
    → (rest : Bytes) → on_first server_handle_packet (failed [] eof) (bs ++ rest) ≡ received es rest
unfolding server_handle_packet common_read_fns server_read_fns write_player read_player
    write_holding_change read_holding_change write_window_close read_window_close client_write_login
    server_read_login client_write_player_position_look server_read_player_position_look
    write_window_click read_window_click write_server_list_ping read_server_list_ping
server_handle_reads _ _ (player on_ground h) rest =
    read_or-put _ _ _ rest h
    ∙ ap (λ (b : Bool). received (packet_player b ∷ []) rest) (byte_to_bool-bool_to_byte on_ground)
server_handle_reads _ _ (holding_change slot_id h) rest = read_or-put _ _ _ rest h
server_handle_reads _ _ (window_close window_id h) rest = read_or-put _ _ _ rest h
server_handle_reads _ _ (client_login username password h) rest =
    read_or-put_then _ _ _ _ rest version-InRange
    ∙ read_string16-write_then username _ _ rest h
    ∙ read_or-put _ _ _ rest zeros-InRange
server_handle_reads _ _ (client_player_position_look position stance look on_ground h) rest =
    read_or-put _ _ _ rest h
    ∙ ap
        (λ (b : Bool).
          received (packet_player_position position stance b ∷ packet_player_look look b ∷ []) rest)
        (byte_to_bool-bool_to_byte on_ground)
server_handle_reads _ _
      (window_click window_id slot right_click tx_id shift_click expected_slot h other k) rest =
    rw (ne→== _ _ other) (
      read_or-put_then _ _ _ _ rest h
      ∙ rw (ne→== _ _ other) (read_or-put _ _ _ rest k)
      ∙ ap2_click right_click shift_click)
  where
    ap2_click :
        (r s : Bool)
        → received
            (packet_window_click window_id slot
                (byte_to_bool (bool_to_byte r))
                tx_id
                (byte_to_bool (bool_to_byte s))
                expected_slot
              ∷ [])
            rest
          ≡ received (packet_window_click window_id slot r tx_id s expected_slot ∷ []) rest
    ap2_click r s = rw (byte_to_bool-bool_to_byte r, byte_to_bool-bool_to_byte s)
server_handle_reads _ _
      (empty_slot_click window_id slot right_click tx_id shift_click count item_data h) rest =
    read_or-put_then _ _ _ _ rest h
    ∙ rw (byte_to_bool-bool_to_byte right_click, byte_to_bool-bool_to_byte shift_click)
server_handle_reads _ _ server_list_ping rest = refl
