-- ===== src/Proto/Reading/Entities.antt =====
-- What a server sends about entities is read by the readers of a client.
use chunkymonkey.Base.{◌≡◌, sym, ap, ◌∙◌, Bool, List, [], ◌∷◌, ◌++◌, ne→==}
use chunkymonkey.Proto.Wire.{Bytes, put_fields, eof, received, failed}
use chunkymonkey.Proto.Wire.ReadsBack.{
  read_or-put, read_or-put_then, read_string16-write_then, put_fields-append, put_fields-regroup,
}
use chunkymonkey.Proto.Ids.{packet_id_entity_spawn, packet_id_entity_metadata}
use chunkymonkey.Proto.Event.{Event, packet_weather}
use chunkymonkey.Proto.Metadata.{write_entity_metadata_field}
use chunkymonkey.Proto.Entity.{
  write_entity_equipment, read_entity_equipment, write_item_collect, read_item_collect,
  write_entity_velocity, read_entity_velocity, write_entity_destroy, read_entity_destroy,
  write_entity, read_entity, write_entity_rel_move, read_entity_rel_move, write_entity_look,
  read_entity_look, write_entity_look_and_rel_move, read_entity_look_and_rel_move,
  write_entity_teleport, read_entity_teleport, write_entity_status, read_entity_status,
  write_entity_effect, read_entity_effect, write_entity_metadata, read_entity_metadata,
}
use chunkymonkey.Proto.Spawn.{
  write_item_spawn, read_item_spawn, write_experience_orb, read_experience_orb, write_weather,
  read_weather, write_named_entity_spawn, read_named_entity_spawn, write_object_spawn,
  read_object_spawn, write_entity_spawn, read_entity_spawn,
}
use chunkymonkey.Proto.Dispatch.{common_read_fns, client_read_fns, client_handle_packet}
use chunkymonkey.Proto.Sent.Entities.{
  EntitySends, entity_equipment, item_collect, entity_velocity, entity_destroy, entity,
  entity_rel_move, entity_look, entity_look_and_rel_move, entity_teleport, entity_status,
  entity_effect, item_spawn, experience_orb, weather, named_entity_spawn, object_spawn,
  object_spawn_data, entity_spawn, entity_metadata,
}
use chunkymonkey.Proto.Reading.Both.{byte_to_bool-bool_to_byte, on_first}
use chunkymonkey.Proto.Metadata.ReadsBack.{then_write-start, read_entity_metadata_field-write}

pub entity_reads :
    (bs : Bytes) (es : List Event)
    → EntitySends bs es
    → (rest : Bytes) → on_first client_handle_packet (failed [] eof) (bs ++ rest) ≡ received es rest
unfolding client_handle_packet common_read_fns client_read_fns write_entity_equipment
    read_entity_equipment write_item_collect read_item_collect write_entity_velocity
    read_entity_velocity write_entity_destroy read_entity_destroy write_entity read_entity
    write_entity_rel_move read_entity_rel_move write_entity_look read_entity_look
    write_entity_look_and_rel_move read_entity_look_and_rel_move write_entity_teleport
    read_entity_teleport write_entity_status read_entity_status write_entity_effect
    read_entity_effect write_item_spawn read_item_spawn write_experience_orb read_experience_orb
    write_weather read_weather write_named_entity_spawn read_named_entity_spawn write_object_spawn
    read_object_spawn write_entity_spawn read_entity_spawn write_entity_metadata
    read_entity_metadata
entity_reads _ _ (entity_equipment entity_id slot item_type_id item_data h) rest =
    read_or-put _ _ _ rest h
entity_reads _ _ (item_collect collected_item collector h) rest = read_or-put _ _ _ rest h
entity_reads _ _ (entity_velocity entity_id velocity h) rest = read_or-put _ _ _ rest h
entity_reads _ _ (entity_destroy entity_id h) rest = read_or-put _ _ _ rest h
entity_reads _ _ (entity entity_id h) rest = read_or-put _ _ _ rest h
entity_reads _ _ (entity_rel_move entity_id movement h) rest = read_or-put _ _ _ rest h
entity_reads _ _ (entity_look entity_id look h) rest = read_or-put _ _ _ rest h
entity_reads _ _ (entity_look_and_rel_move entity_id movement look h) rest =
    read_or-put _ _ _ rest h
entity_reads _ _ (entity_teleport entity_id position look h) rest = read_or-put _ _ _ rest h
entity_reads _ _ (entity_status entity_id status h) rest = read_or-put _ _ _ rest h
entity_reads _ _ (entity_effect entity_id effect value duration h) rest = read_or-put _ _ _ rest h
entity_reads _ _ (item_spawn entity_id item_type_id amount item_data position orientation h) rest =
    read_or-put _ _ _ rest h
entity_reads _ _ (experience_orb entity_id position count h) rest = read_or-put _ _ _ rest h
entity_reads _ _ (weather entity_id raining position h) rest =
    read_or-put _ _ _ rest h
    ∙ ap (λ (b : Bool). received (packet_weather entity_id b position ∷ []) rest)
        (byte_to_bool-bool_to_byte raining)
entity_reads _ _ (named_entity_spawn entity_id name position look current_item h k l) rest =
    read_or-put_then _ _ _ _ rest h
    ∙ read_string16-write_then name _ _ rest k
    ∙ read_or-put _ _ _ rest l
entity_reads _ _ (object_spawn entity_id obj_type position h) rest =
    ap (λ (t : Bytes). read_object_spawn (t ++ rest))
      (sym (
        put_fields-append
          ((4, entity_id)
            ∷ (1, obj_type)
            ∷ (4, position.x)
            ∷ (4, position.y)
            ∷ (4, position.z)
            ∷ [])
          ((4, 0) ∷ [])))
    ∙ read_or-put _ _ _ rest h
entity_reads _ _ (object_spawn_data entity_id obj_type position d h nonzero k) rest =
    ap (λ (t : Bytes). read_object_spawn (t ++ rest))
      (put_fields-regroup
        ((4, entity_id) ∷ (1, obj_type) ∷ (4, position.x) ∷ (4, position.y) ∷ (4, position.z) ∷ [])
        ((4, d.field1) ∷ []) ((2, d.field2_0) ∷ (2, d.field2_1) ∷ (2, d.field2_2) ∷ []))
    ∙ read_or-put_then _ _ _ _ rest h
    ∙ rw (ne→== _ _ nonzero) (read_or-put _ _ _ rest k)
entity_reads _ _ (entity_spawn entity_id mob_type position look items bs e h k) rest =
    let (meta, has_meta, eq) =
      then_write-start
        (packet_id_entity_spawn
          ∷ put_fields (
              (4, entity_id)
              ∷ (1, mob_type)
              ∷ (4, position.x)
              ∷ (4, position.y)
              ∷ (4, position.z)
              ∷ (1, look.yaw)
              ∷ (1, look.pitch)
              ∷ []))
        (write_entity_metadata_field items) bs e in
    ap (λ (t : Bytes). on_first client_handle_packet (failed [] eof) (t ++ rest)) eq
    ∙ read_or-put_then _ _ _ _ rest h
    ∙ read_entity_metadata_field-write items meta _ rest has_meta k
entity_reads _ _ (entity_metadata entity_id items bs e h k) rest =
    let (meta, has_meta, eq) =
      then_write-start (packet_id_entity_metadata ∷ put_fields ((4, entity_id) ∷ []))
        (write_entity_metadata_field items) bs e in
    ap (λ (t : Bytes). on_first client_handle_packet (failed [] eof) (t ++ rest)) eq
    ∙ read_or-put_then _ _ _ _ rest h
    ∙ read_entity_metadata_field-write items meta _ rest has_meta k
