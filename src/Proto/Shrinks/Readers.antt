-- ===== src/Proto/Shrinks/Readers.antt =====
-- The server's readers of src/chunkymonkey/proto/proto.go that are more than one struct make no call
-- before they fail, leave the stream no longer than it was, and end.
use chunkymonkey.Base.{ℕ, refl, ◌==◌}
use chunkymonkey.Base.Words.{le16}
use chunkymonkey.Proto.Wire.Shrinks.{
  Consumes, read_string16-Consumes, if-Consumes, if-Within, read_with-Consumes,
}
use chunkymonkey.Proto.Ids.{protocol_version}
use chunkymonkey.Proto.Event.{Event}
use chunkymonkey.Proto.Session.{
  server_read_login, server_read_handshake, check_colors, read_chat_message, read_server_list_ping,
  read_disconnect,
}
use chunkymonkey.Proto.Player.{server_read_player_position_look, read_player_block_interact}
use chunkymonkey.Proto.Windows.{read_window_click, read_sign_update}

pub read_chat_message-Consumes : (n : ℕ) → Consumes n read_chat_message
unfolding read_chat_message
read_chat_message-Consumes n =
    read_string16-Consumes n _
      (λ message rest le. if-Within n (check_colors message) _ _ ((λ e. cc), refl) le)

pub read_player_block_interact-Consumes : (n : ℕ) → Consumes n read_player_block_interact
unfolding read_player_block_interact
read_player_block_interact-Consumes n = read_with-Consumes Event n _ _ (λ x y z face a.
    if-Consumes n (le16 0 a) _ _ (read_with-Consumes Event n _ _ (λ b c rest le. le))
      (λ rest le. le))

pub read_sign_update-Consumes : (n : ℕ) → Consumes n read_sign_update
unfolding read_sign_update
read_sign_update-Consumes n = read_with-Consumes Event n _ _ (λ x y z.
    read_string16-Consumes n _ (λ a.
      read_string16-Consumes n _
        (λ b. read_string16-Consumes n _ (λ c. read_string16-Consumes n _ (λ d rest le. le)))))

pub read_disconnect-Consumes : (n : ℕ) → Consumes n read_disconnect
unfolding read_disconnect
read_disconnect-Consumes n = read_string16-Consumes n _ (λ reason rest le. le)

pub server_read_login-Consumes : (n : ℕ) → Consumes n server_read_login
unfolding server_read_login
server_read_login-Consumes n = read_with-Consumes Event n _ _ (λ version.
    read_string16-Consumes n _ (λ str.
      read_with-Consumes Event n _ _ (λ a b c d e f rest le.
        if-Within n (version == protocol_version) _ _ le ((λ e. cc), refl))))

pub server_read_handshake-Consumes : (n : ℕ) → Consumes n server_read_handshake
unfolding server_read_handshake
server_read_handshake-Consumes n = read_string16-Consumes n _ (λ s rest le. le)

pub server_read_player_position_look-Consumes :
    (n : ℕ) → Consumes n server_read_player_position_look
unfolding server_read_player_position_look
server_read_player_position_look-Consumes n =
    read_with-Consumes Event n _ _ (λ x y1 y2 z yaw pitch on_ground rest le. le)

pub read_server_list_ping-Consumes : (n : ℕ) → Consumes n read_server_list_ping
unfolding read_server_list_ping
read_server_list_ping-Consumes n = λ rest le. le

pub read_window_click-Consumes : (n : ℕ) → Consumes n read_window_click
unfolding read_window_click
read_window_click-Consumes n = read_with-Consumes Event n _ _ (λ a b c d e i.
    if-Consumes n (i == 0xffff) _ _ (λ rest le. le)
      (read_with-Consumes Event n _ _ (λ x y rest le. le)))
