-- ===== src/Proto/Shrinks/Tables.antt =====
-- Every reader in the server's tables of src/chunkymonkey/proto/proto.go makes no call before it fails, leaves the stream no longer than it was,
-- and ends.
use chunkymonkey.Base.{ℕ, All}
use chunkymonkey.Proto.Wire.Shrinks.{Consumes, read_with-Consumes}
use chunkymonkey.Proto.Event.{Event}
use chunkymonkey.Proto.Session.{read_keep_alive, read_respawn}
use chunkymonkey.Proto.Player.{
  read_player, read_player_position, read_player_look, read_player_block_hit, read_holding_change,
  read_use_entity, read_entity_animation, read_entity_action,
}
use chunkymonkey.Proto.Windows.{read_window_close, read_window_transaction}
use chunkymonkey.Proto.Dispatch.{common_read_fns, server_read_fns}
use chunkymonkey.Proto.Shrinks.Readers.{
  read_chat_message-Consumes, read_player_block_interact-Consumes, read_sign_update-Consumes,
  read_disconnect-Consumes, server_read_login-Consumes, server_read_handshake-Consumes,
  server_read_player_position_look-Consumes, read_server_list_ping-Consumes,
  read_window_click-Consumes,
}

pub common_read_fns-Consume : (n : ℕ) → All (λ entry. Consumes n entry.1) common_read_fns
unfolding common_read_fns read_keep_alive read_entity_action read_use_entity read_respawn
    read_player_position read_player_look read_player_block_hit read_entity_animation
    read_window_transaction
common_read_fns-Consume n = (
  read_with-Consumes Event n _ _ (λ id rest h. h),
  (
    read_chat_message-Consumes n,
    (
      read_with-Consumes Event n _ _ (λ entity_id action rest h. h),
      (
        read_with-Consumes Event n _ _ (λ user target left_click rest h. h),
        (
          read_with-Consumes Event n _ _
              (λ dimension unknown game_type world_height map_seed rest h. h),
          (
            read_with-Consumes Event n _ _ (λ x y stance z on_ground rest h. h),
            (
              read_with-Consumes Event n _ _ (λ yaw pitch on_ground rest h. h),
              (
                read_with-Consumes Event n _ _ (λ status x y z face rest h. h),
                (
                  read_player_block_interact-Consumes n,
                  (
                    read_with-Consumes Event n _ _ (λ entity_id animation rest h. h),
                    (
                      read_with-Consumes Event n _ _ (λ window_id tx_id accepted rest h. h),
                      (read_sign_update-Consumes n, (read_disconnect-Consumes n, tt)),
                    ),
                  ),
                ),
              ),
            ),
          ),
        ),
      ),
    ),
  ),
)

pub server_read_fns-Consume : (n : ℕ) → All (λ entry. Consumes n entry.1) server_read_fns
unfolding server_read_fns read_player read_holding_change read_window_close
server_read_fns-Consume n = (
  server_read_login-Consumes n,
  (
    server_read_handshake-Consumes n,
    (
      read_with-Consumes Event n _ _ (λ on_ground rest h. h),
      (
        server_read_player_position_look-Consumes n,
        (
          read_window_click-Consumes n,
          (
            read_with-Consumes Event n _ _ (λ slot_id rest h. h),
            (
              read_with-Consumes Event n _ _ (λ window_id rest h. h),
              (read_server_list_ping-Consumes n, tt),
            ),
          ),
        ),
      ),
    ),
  ),
)
