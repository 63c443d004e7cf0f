-- ===== src/Proto/Tests.antt =====
-- Packets written and read, and the theorems at them.
use chunkymonkey.Base.{
  ◌≡◌, refl, ap, length, ◌≢◌, inl, inr, true, false, some, List, [], ◌∷◌, ◌++◌, arith,
}
use chunkymonkey.Proto.Wire.{
  InRange, put_be, put_fields, put_array, write_string16, read_be_loop, read_or, eof,
  unexpected_packet_id, unknown_packet_id, color_tag_end, out_of_fuel, received, failed,
}
use chunkymonkey.Proto.Wire.Stable.{Extends}
use chunkymonkey.Proto.Ids.{packet_id_login}
use chunkymonkey.Proto.Event.{
  WindowSlot, block_xyz, chunk_xz, sub_chunk_xyz, window_slot, Event, bool_to_byte,
  packet_window_click, packet_server_list_ping, packet_bed_use,
}
use chunkymonkey.Proto.Session.{
  write_user_list_item, write_keep_alive, write_chat_message, write_server_list_ping,
}
use chunkymonkey.Proto.Player.{read_bed_use}
use chunkymonkey.Proto.Spawn.{write_painting_spawn}
use chunkymonkey.Proto.World.{write_block_change_multi}
use chunkymonkey.Proto.Windows.{write_window_click}
use chunkymonkey.Proto.Dispatch.{
  common_read_fns, server_read_fns, server_handle_packet, server_read_packet,
  server_read_packet_expect, client_read_packet,
}
use chunkymonkey.Proto.Sent.{IsWindowSlot}
use chunkymonkey.Proto.Sent.Clients.{window_click, server_list_ping}
use chunkymonkey.Proto.Receive.{
  Handled, goes_on, closes, receive_loop, receive_loop-ends, Session, receive_loop-Session, quiet,
  next,
}
use chunkymonkey.Proto.Framing.{server_read_packet-Extends, server_read_packet-cut_short}
use chunkymonkey.Proto.Stream.{
  client_read_packet-write_user_list_item, FromClient, server_read_packet-sent,
}

keep_alive_bytes : write_keep_alive 258 ≡ 0x00 ∷ 0 ∷ 0 ∷ 1 ∷ 2 ∷ []
unfolding write_keep_alive put_fields put_be
keep_alive_bytes = refl

-- A code point above 0xffff becomes the replacement character.
long_code_point : write_string16 (0x41 ∷ 0x10000 ∷ []) ≡ 0 ∷ 2 ∷ 0 ∷ 0x41 ∷ 0xff ∷ 0xfd ∷ []
unfolding write_string16 put_array put_be
long_code_point = refl

unknown_packet : server_read_packet (0x7f ∷ []) ≡ failed [] (unknown_packet_id 0x7f)
unfolding server_read_packet server_handle_packet common_read_fns server_read_fns read_or
    read_be_loop
unknown_packet = refl

unexpected_packet :
    server_read_packet_expect (packet_id_login ∷ []) (0x00 ∷ [])
    ≡ failed [] (unexpected_packet_id 0)
unfolding server_read_packet_expect read_or read_be_loop
unexpected_packet = refl

colors_at_the_end : write_chat_message (0x41 ∷ 0xa7 ∷ 0x31 ∷ []) ≡ inl color_tag_end
unfolding write_chat_message
colors_at_the_end = refl

-- A bed packet that breaks off calls the handler; a whole one does not.
broken_bed : read_bed_use (1 ∷ []) ≡ failed (packet_bed_use false (block_xyz 0 0 0) ∷ []) eof
unfolding read_bed_use read_or read_be_loop
broken_bed = refl

-- The packet of a painting starts with the entity and not with its identifier.
painting_bytes :
    write_painting_spawn 7 [] (block_xyz 1 2 3) 5
    ≡ 0 ∷ 0 ∷ 0 ∷ 7 ∷ 0 ∷ 0 ∷ 0 ∷ 0 ∷ 0 ∷ 1 ∷ 0 ∷ 0 ∷ 0 ∷ 2 ∷ 0 ∷ 0 ∷ 0 ∷ 3 ∷ 0 ∷ 0 ∷ 0 ∷ 5 ∷ []
unfolding write_painting_spawn put_fields put_be write_string16 put_array
painting_bytes = refl

-- A block change carries no types, and only the heights of its blocks.
block_changes :
    write_block_change_multi (chunk_xz 0 0) (sub_chunk_xyz 3 70 5 ∷ []) (1 ∷ []) (0 ∷ [])
    ≡ some (0x34 ∷ 0 ∷ 0 ∷ 0 ∷ 0 ∷ 0 ∷ 0 ∷ 0 ∷ 0 ∷ 0 ∷ 1 ∷ 0 ∷ 70 ∷ [])
unfolding write_block_change_multi put_fields put_be put_array
block_changes = refl

abbrev door_slot : WindowSlot
door_slot = window_slot 64 1 0

door-IsWindowSlot : IsWindowSlot door_slot
unfolding InRange
door-IsWindowSlot = (omega arith, (omega arith, omega arith))

click-InRange :
    InRange
      ((1, 1) ∷ (2, 36) ∷ (1, bool_to_byte true) ∷ (2, 5) ∷ (1, bool_to_byte false) ∷ (2, 64) ∷ [])
unfolding InRange
click-InRange =
    (omega arith, (omega arith, (omega arith, (omega arith, (omega arith, omega arith)))))

abbrev door_click :
    FromClient
      (write_window_click 1 36 true 5 false door_slot)
      (packet_window_click 1 36 true 5 false door_slot ∷ [])
door_click =
    inr (
      window_click 1 36 true 5 false door_slot click-InRange (λ e. omega arith) door-IsWindowSlot.1)

server_read_packet-sent_example :
    server_read_packet (write_window_click 1 36 true 5 false door_slot ++ (0x00 ∷ []))
    ≡ received (packet_window_click 1 36 true 5 false door_slot ∷ []) (0x00 ∷ [])
server_read_packet-sent_example =
    server_read_packet-sent (write_window_click 1 36 true 5 false door_slot)
      (packet_window_click 1 36 true 5 false door_slot ∷ []) door_click (0x00 ∷ [])

abbrev click_and_ping :
    Session
      (write_window_click 1 36 true 5 false door_slot ++ (write_server_list_ping ++ []))
      (packet_window_click 1 36 true 5 false door_slot ∷ packet_server_list_ping ∷ [])
click_and_ping = next _ _ _ _ door_click (next _ _ _ _ (inr server_list_ping) quiet)

-- A player whose connection is closed after the third call.
abbrev three_calls : List Event → Handled
three_calls [] = goes_on
three_calls (a ∷ []) = goes_on
three_calls (a ∷ b ∷ []) = goes_on
three_calls (a ∷ b ∷ c ∷ calls) = closes

two_calls :
    (pre post : List Event)
    → pre ++ post ≡ packet_window_click 1 36 true 5 false door_slot ∷ packet_server_list_ping ∷ []
    → three_calls pre ≡ goes_on
two_calls [] post e = refl
two_calls (a ∷ []) post e = refl
two_calls (a ∷ b ∷ []) post e = refl
two_calls (a ∷ b ∷ c ∷ pre) post e = absurd (omega (arith, ap length e))

receive_loop-Session_example :
    receive_loop three_calls 100 []
      (write_window_click 1 36 true 5 false door_slot ++ (write_server_list_ping ++ []))
    ≡ (packet_window_click 1 36 true 5 false door_slot ∷ packet_server_list_ping ∷ [], eof)
unfolding write_window_click write_server_list_ping put_fields put_be
receive_loop-Session_example =
    receive_loop-Session three_calls
      (write_window_click 1 36 true 5 false door_slot ++ (write_server_list_ping ++ []))
      (packet_window_click 1 36 true 5 false door_slot ∷ packet_server_list_ping ∷ [])
      click_and_ping 100 [] (omega arith) two_calls

receive_loop-ends_example : (receive_loop three_calls 5 [] (0x28 ∷ 0 ∷ 9 ∷ 7 ∷ [])).1 ≢ out_of_fuel
receive_loop-ends_example = receive_loop-ends three_calls 5 [] (0x28 ∷ 0 ∷ 9 ∷ 7 ∷ []) (omega arith)

server_read_packet-Extends_example :
    Extends
      (0x00 ∷ [])
      (server_read_packet (0xfe ∷ []))
      (server_read_packet ((0xfe ∷ []) ++ (0x00 ∷ [])))
server_read_packet-Extends_example = server_read_packet-Extends (0xfe ∷ []) (0x00 ∷ [])

-- A click that breaks off in its transaction.
server_read_packet-cut_short_example :
    server_read_packet (0x66 ∷ 1 ∷ 0 ∷ 36 ∷ 1 ∷ 0 ∷ []) ≡ failed [] eof
unfolding write_window_click put_fields put_be
server_read_packet-cut_short_example =
    server_read_packet-cut_short (0x66 ∷ 1 ∷ 0 ∷ 36 ∷ 1 ∷ 0 ∷ []) (5 ∷ 0 ∷ 0 ∷ 64 ∷ 1 ∷ 0 ∷ 0 ∷ [])
      (packet_window_click 1 36 true 5 false door_slot ∷ []) door_click (omega arith)

listed_user :
    client_read_packet (write_user_list_item (0x41 ∷ []) true 20 ++ (0x00 ∷ []))
    ≡ failed [] (unknown_packet_id 0xc9)
listed_user = client_read_packet-write_user_list_item (0x41 ∷ []) true 20 (0x00 ∷ [])
