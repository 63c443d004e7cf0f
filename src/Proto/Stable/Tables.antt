-- ===== src/Proto/Stable/Tables.antt =====
-- No reader in the tables of src/chunkymonkey/proto/proto.go depends on what follows a packet.
use chunkymonkey.Base.{ℕ, refl, All}
use chunkymonkey.Proto.Wire.{Bytes}
use chunkymonkey.Proto.Wire.Stable.{Stable, read_with-Stable}
use chunkymonkey.Proto.Event.{Event}
use chunkymonkey.Proto.Session.{
  read_keep_alive, read_time_update, read_update_health, read_respawn, read_player_experience,
  read_state, read_increment_statistic,
}
use chunkymonkey.Proto.Player.{
  read_player, read_player_position, read_player_look, read_player_block_hit, read_holding_change,
  read_use_entity, read_entity_animation, read_entity_action,
}
use chunkymonkey.Proto.Entity.{
  read_entity_equipment, read_item_collect, read_entity_velocity, read_entity_destroy, read_entity,
  read_entity_rel_move, read_entity_look, read_entity_look_and_rel_move, read_entity_teleport,
  read_entity_status, read_entity_effect,
}
use chunkymonkey.Proto.Spawn.{read_item_spawn, read_experience_orb, read_weather}
use chunkymonkey.Proto.World.{
  read_pre_chunk, read_block_change, read_note_block_play, read_sound_effect,
}
use chunkymonkey.Proto.Windows.{
  read_window_close, read_window_progress_bar, read_window_transaction, read_quickbar_slot_update,
}
use chunkymonkey.Proto.Dispatch.{common_read_fns, server_read_fns, client_read_fns}
use chunkymonkey.Proto.Stable.Readers.{
  read_chat_message-Stable, read_player_block_interact-Stable, read_sign_update-Stable,
  read_disconnect-Stable, server_read_login-Stable, client_read_login-Stable,
  server_read_handshake-Stable, client_read_handshake-Stable,
  server_read_player_position_look-Stable, client_read_player_position_look-Stable,
  read_spawn_position-Stable, read_server_list_ping-Stable, read_bed_use-Stable,
  read_named_entity_spawn-Stable, read_object_spawn-Stable, read_entity_spawn-Stable,
  read_painting_spawn-Stable, read_entity_metadata-Stable, read_entity_remove_effect-Stable,
  read_map_chunk-Stable, read_block_change_multi-Stable, read_explosion-Stable,
  read_window_open-Stable, read_window_click-Stable, read_window_set_slot-Stable,
  read_window_items-Stable, read_item_data-Stable,
}

pub common_read_fns-AreStable :
    (n : ℕ) (more : Bytes) → All (λ entry. Stable n more entry.1 entry.1) common_read_fns
unfolding common_read_fns read_keep_alive read_entity_action read_use_entity read_respawn
    read_player_position read_player_look read_player_block_hit read_entity_animation
    read_window_transaction
common_read_fns-AreStable n more = (
  read_with-Stable Event n more _ _ _ (λ id rest le. refl),
  (
    read_chat_message-Stable n more,
    (
      read_with-Stable Event n more _ _ _ (λ entity_id action rest le. refl),
      (
        read_with-Stable Event n more _ _ _ (λ user target left_click rest le. refl),
        (
          read_with-Stable Event n more _ _ _
              (λ dimension unknown game_type world_height map_seed rest le. refl),
          (
            read_with-Stable Event n more _ _ _ (λ x y stance z on_ground rest le. refl),
            (
              read_with-Stable Event n more _ _ _ (λ yaw pitch on_ground rest le. refl),
              (
                read_with-Stable Event n more _ _ _ (λ status x y z face rest le. refl),
                (
                  read_player_block_interact-Stable n more,
                  (
                    read_with-Stable Event n more _ _ _ (λ entity_id animation rest le. refl),
                    (
                      read_with-Stable Event n more _ _ _
                          (λ window_id tx_id accepted rest le. refl),
                      (read_sign_update-Stable n more, (read_disconnect-Stable n more, tt)),
                    ),
                  ),
                ),
              ),
            ),
          ),
        ),
      ),
    ),
  ),
)

pub server_read_fns-AreStable :
    (n : ℕ) (more : Bytes) → All (λ entry. Stable n more entry.1 entry.1) server_read_fns
unfolding server_read_fns read_player read_holding_change read_window_close
server_read_fns-AreStable n more = (
  server_read_login-Stable n more,
  (
    server_read_handshake-Stable n more,
    (
      read_with-Stable Event n more _ _ _ (λ on_ground rest le. refl),
      (
        server_read_player_position_look-Stable n more,
        (
          read_window_click-Stable n more,
          (
            read_with-Stable Event n more _ _ _ (λ slot_id rest le. refl),
            (
              read_with-Stable Event n more _ _ _ (λ window_id rest le. refl),
              (read_server_list_ping-Stable n more, tt),
            ),
          ),
        ),
      ),
    ),
  ),
)

pub client_read_fns-AreStable :
    (n : ℕ) (more : Bytes) → All (λ entry. Stable n more entry.1 entry.1) client_read_fns
unfolding client_read_fns read_time_update read_entity_equipment read_update_health read_item_spawn
    read_item_collect read_experience_orb read_entity_velocity read_entity_destroy read_entity
    read_entity_rel_move read_entity_look read_entity_look_and_rel_move read_entity_teleport
    read_entity_status read_entity_effect read_player_experience read_pre_chunk read_block_change
    read_note_block_play read_sound_effect read_state read_weather read_window_progress_bar
    read_quickbar_slot_update read_increment_statistic
client_read_fns-AreStable n more = (
  client_read_login-Stable n more,
  (
    client_read_handshake-Stable n more,
    (
      read_with-Stable Event n more _ _ _ (λ time rest le. refl),
      (
        read_with-Stable Event n more _ _ _ (λ entity_id slot item_type_id item_data rest le. refl),
        (
          read_spawn_position-Stable n more,
          (
            read_with-Stable Event n more _ _ _ (λ health food food_saturation rest le. refl),
            (
              client_read_player_position_look-Stable n more,
              (
                read_bed_use-Stable n more,
                (
                  read_named_entity_spawn-Stable n more,
                  (
                    read_with-Stable Event n more _ _ _
                        (λ entity_id item_type_id amount item_data x y z yaw pitch roll rest le.
                          refl),
                    (
                      read_with-Stable Event n more _ _ _
                          (λ collected_item collector rest le. refl),
                      (
                        read_object_spawn-Stable n more,
                        (
                          read_entity_spawn-Stable n more,
                          (
                            read_painting_spawn-Stable n more,
                            (
                              read_with-Stable Event n more _ _ _
                                  (λ entity_id x y z count rest le. refl),
                              (
                                read_with-Stable Event n more _ _ _
                                    (λ entity_id x y z rest le. refl),
                                (
                                  read_with-Stable Event n more _ _ _ (λ entity_id rest le. refl),
                                  (
                                    read_with-Stable Event n more _ _ _ (λ entity_id rest le. refl),
                                    (
                                      read_with-Stable Event n more _ _ _
                                          (λ entity_id x y z rest le. refl),
                                      (
                                        read_with-Stable Event n more _ _ _
                                            (λ entity_id yaw pitch rest le. refl),
                                        (
                                          read_with-Stable Event n more _ _ _
                                              (λ entity_id x y z yaw pitch rest le. refl),
                                          (
                                            read_with-Stable Event n more _ _ _
                                                (λ entity_id x y z yaw pitch rest le. refl),
                                            (
                                              read_with-Stable Event n more _ _ _
                                                  (λ entity_id status rest le. refl),
                                              (
                                                read_entity_metadata-Stable n more,
                                                (
                                                  read_with-Stable Event n more _ _ _
                                                      (λ entity_id effect value duration rest le.
                                                        refl),
                                                  (
                                                    read_entity_remove_effect-Stable n more,
                                                    (
                                                      read_with-Stable Event n more _ _ _
                                                          (λ experience level total_experience rest
                                                            le.
                                                            refl),
                                                      (
                                                        read_with-Stable Event n more _ _ _
                                                            (λ x z mode rest le. refl),
                                                        (
                                                          read_map_chunk-Stable n more,
                                                          (
                                                            read_block_change_multi-Stable n more,
                                                            (
                                                            read_with-Stable Event n more _ _ _
                                                            (λ x y z block_type block_meta_data rest
                                                            le.
                                                            refl),
                                                            (
                                                            read_with-Stable Event n more _ _ _
                                                            (λ x y z instrument pitch rest le.
                                                            refl),
                                                            (
                                                            read_explosion-Stable n more,
                                                            (
                                                            read_with-Stable Event n more _ _ _
                                                            (λ sound x y z item_data rest le. refl),
                                                            (
                                                            read_with-Stable Event n more _ _ _
                                                            (λ reason game_mode rest le. refl),
                                                            (
                                                            read_with-Stable Event n more _ _ _
                                                            (λ entity_id raining x y z rest le.
                                                            refl),
                                                            (
                                                            read_window_open-Stable n more,
                                                            (
                                                            read_window_set_slot-Stable n more,
                                                            (
                                                            read_window_items-Stable n more,
                                                            (
                                                            read_with-Stable Event n more _ _ _
                                                            (λ window_id prg_bar_id value rest le.
                                                            refl),
                                                            (
                                                            read_with-Stable Event n more _ _ _
                                                            (λ slot item_id count item_data rest le.
                                                            refl),
                                                            (
                                                            read_item_data-Stable n more,
                                                            (
                                                            read_with-Stable Event n more _ _ _
                                                            (λ statistic_id delta rest le. refl),
                                                            tt,
                                                            ),
                                                            ),
                                                            ),
                                                            ),
                                                            ),
                                                            ),
                                                            ),
                                                            ),
                                                            ),
                                                            ),
                                                            ),
                                                            ),
                                                            ),
                                                          ),
                                                        ),
                                                      ),
                                                    ),
                                                  ),
                                                ),
                                              ),
                                            ),
                                          ),
                                        ),
                                      ),
                                    ),
                                  ),
                                ),
                              ),
                            ),
                          ),
                        ),
                      ),
                    ),
                  ),
                ),
              ),
            ),
          ),
        ),
      ),
    ),
  ),
)
