-- ===== src/Proto/Sent/Clients.antt =====
-- Packets of src/chunkymonkey/proto/proto.go that a client sends to a server.
use chunkymonkey.Base.{ℕ, ◌≢◌, Bool, List, [], ◌∷◌}
use chunkymonkey.Proto.Wire.{Bytes, InRange}
use chunkymonkey.Proto.Wire.ReadsBack.{IsString16}
use chunkymonkey.Proto.Event.{
  AbsXyz, LookDegrees, WindowSlot, window_slot, Event, bool_to_byte, packet_player_position,
  packet_player_look, packet_server_login, packet_player, packet_holding_change,
  packet_window_close, packet_window_click, packet_server_list_ping,
}
use chunkymonkey.Proto.Session.{client_write_login, write_server_list_ping}
use chunkymonkey.Proto.Player.{
  write_player, write_holding_change, client_write_player_position_look,
}
use chunkymonkey.Proto.Windows.{write_window_close, write_window_click}

pub data ClientSends : Bytes → List Event → Type 0 where
  player :
      (on_ground : Bool)
      → InRange ((1, bool_to_byte on_ground) ∷ [])
      → ClientSends (write_player on_ground) (packet_player on_ground ∷ [])
  holding_change :
      (slot_id : ℕ)
      → InRange ((2, slot_id) ∷ [])
      → ClientSends (write_holding_change slot_id) (packet_holding_change slot_id ∷ [])
  window_close :
      (window_id : ℕ)
      → InRange ((1, window_id) ∷ [])
      → ClientSends (write_window_close window_id) (packet_window_close window_id ∷ [])
  client_login :
      (username password : List ℕ)
      → IsString16 username
      → ClientSends (client_write_login username password) (packet_server_login username ∷ [])
  client_player_position_look :
      (position : AbsXyz) (stance : ℕ) (look : LookDegrees) (on_ground : Bool)
      → InRange (
          (8, position.x)
          ∷ (8, position.y)
          ∷ (8, stance)
          ∷ (8, position.z)
          ∷ (4, look.yaw)
          ∷ (4, look.pitch)
          ∷ (1, bool_to_byte on_ground)
          ∷ [])
      → ClientSends (client_write_player_position_look position stance look on_ground) (
          packet_player_position position stance on_ground ∷ packet_player_look look on_ground ∷ [])
  window_click :
      (window_id slot : ℕ) (right_click : Bool) (tx_id : ℕ) (shift_click : Bool)
      (expected_slot : WindowSlot)
      → InRange (
          (1, window_id)
          ∷ (2, slot)
          ∷ (1, bool_to_byte right_click)
          ∷ (2, tx_id)
          ∷ (1, bool_to_byte shift_click)
          ∷ (2, expected_slot.item_type_id)
          ∷ [])
      → expected_slot.item_type_id ≢ 0xffff
      → InRange ((1, expected_slot.count) ∷ (2, expected_slot.item_data) ∷ [])
      → ClientSends
          (write_window_click window_id slot right_click tx_id shift_click expected_slot)
          (packet_window_click window_id slot right_click tx_id shift_click expected_slot ∷ [])
  empty_slot_click :
      (window_id slot : ℕ) (right_click : Bool) (tx_id : ℕ) (shift_click : Bool)
      (count item_data : ℕ)
      → InRange (
          (1, window_id)
          ∷ (2, slot)
          ∷ (1, bool_to_byte right_click)
          ∷ (2, tx_id)
          ∷ (1, bool_to_byte shift_click)
          ∷ (2, 0xffff)
          ∷ [])
      → ClientSends
          (write_window_click window_id slot right_click tx_id shift_click
            (window_slot 0xffff count item_data))
          (packet_window_click window_id slot right_click tx_id shift_click (window_slot 0xffff 0 0)
            ∷ [])
  server_list_ping : ClientSends write_server_list_ping (packet_server_list_ping ∷ [])
