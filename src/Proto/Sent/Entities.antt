-- ===== src/Proto/Sent/Entities.antt =====
-- Packets of src/chunkymonkey/proto/proto.go about entities, which a server sends to a client.
use chunkymonkey.Base.{ℕ, ◌≡◌, ◌≢◌, Bool, none, some, List, [], ◌∷◌, map, All}
use chunkymonkey.Proto.Wire.{Bytes, InRange}
use chunkymonkey.Proto.Wire.ReadsBack.{IsString16}
use chunkymonkey.Proto.Event.{
  AbsIntXyz, Velocity, RelMove, LookBytes, OrientationBytes, ObjectData, EntityMetadata, Event,
  bool_to_byte, packet_named_entity_spawn, packet_entity_equipment, packet_item_spawn,
  packet_item_collect, packet_object_spawn, packet_entity_spawn, packet_experience_orb,
  packet_entity_velocity, packet_entity_destroy, packet_entity, packet_entity_rel_move,
  packet_entity_look, packet_entity_teleport, packet_entity_status, packet_entity_metadata,
  packet_entity_effect, packet_weather,
}
use chunkymonkey.Proto.Entity.{
  write_entity_equipment, write_item_collect, write_entity_velocity, write_entity_destroy,
  write_entity, write_entity_rel_move, write_entity_look, write_entity_look_and_rel_move,
  write_entity_teleport, write_entity_status, write_entity_effect, write_entity_metadata,
}
use chunkymonkey.Proto.Spawn.{
  write_item_spawn, write_experience_orb, write_weather, write_named_entity_spawn,
  write_object_spawn, write_entity_spawn,
}
use chunkymonkey.Proto.Sent.{IsEntry, without_kind}

pub data EntitySends : Bytes → List Event → Type 0 where
  entity_equipment :
      (entity_id : ℕ) (slot : ℕ) (item_type_id : ℕ) (item_data : ℕ)
      → InRange ((4, entity_id) ∷ (2, slot) ∷ (2, item_type_id) ∷ (2, item_data) ∷ [])
      → EntitySends
          (write_entity_equipment entity_id slot item_type_id item_data)
          (packet_entity_equipment entity_id slot item_type_id item_data ∷ [])
  item_collect :
      (collected_item : ℕ) (collector : ℕ)
      → InRange ((4, collected_item) ∷ (4, collector) ∷ [])
      → EntitySends
          (write_item_collect collected_item collector)
          (packet_item_collect collected_item collector ∷ [])
  entity_velocity :
      (entity_id : ℕ) (velocity : Velocity)
      → InRange ((4, entity_id) ∷ (2, velocity.x) ∷ (2, velocity.y) ∷ (2, velocity.z) ∷ [])
      → EntitySends
          (write_entity_velocity entity_id velocity)
          (packet_entity_velocity entity_id velocity ∷ [])
  entity_destroy :
      (entity_id : ℕ)
      → InRange ((4, entity_id) ∷ [])
      → EntitySends (write_entity_destroy entity_id) (packet_entity_destroy entity_id ∷ [])
  entity :
      (entity_id : ℕ)
      → InRange ((4, entity_id) ∷ [])
      → EntitySends (write_entity entity_id) (packet_entity entity_id ∷ [])
  entity_rel_move :
      (entity_id : ℕ) (movement : RelMove)
      → InRange ((4, entity_id) ∷ (1, movement.x) ∷ (1, movement.y) ∷ (1, movement.z) ∷ [])
      → EntitySends
          (write_entity_rel_move entity_id movement)
          (packet_entity_rel_move entity_id movement ∷ [])
  entity_look :
      (entity_id : ℕ) (look : LookBytes)
      → InRange ((4, entity_id) ∷ (1, look.yaw) ∷ (1, look.pitch) ∷ [])
      → EntitySends (write_entity_look entity_id look) (packet_entity_look entity_id look ∷ [])
  entity_look_and_rel_move :
      (entity_id : ℕ) (movement : RelMove) (look : LookBytes)
      → InRange (
          (4, entity_id)
          ∷ (1, movement.x)
          ∷ (1, movement.y)
          ∷ (1, movement.z)
          ∷ (1, look.yaw)
          ∷ (1, look.pitch)
          ∷ [])
      → EntitySends
          (write_entity_look_and_rel_move entity_id movement look)
          (packet_entity_rel_move entity_id movement ∷ packet_entity_look entity_id look ∷ [])
  entity_teleport :
      (entity_id : ℕ) (position : AbsIntXyz) (look : LookBytes)
      → InRange (
          (4, entity_id)
          ∷ (4, position.x)
          ∷ (4, position.y)
          ∷ (4, position.z)
          ∷ (1, look.yaw)
          ∷ (1, look.pitch)
          ∷ [])
      → EntitySends
          (write_entity_teleport entity_id position look)
          (packet_entity_teleport entity_id position look ∷ [])
  entity_status :
      (entity_id : ℕ) (status : ℕ)
      → InRange ((4, entity_id) ∷ (1, status) ∷ [])
      → EntitySends
          (write_entity_status entity_id status)
          (packet_entity_status entity_id status ∷ [])
  entity_effect :
      (entity_id : ℕ) (effect : ℕ) (value : ℕ) (duration : ℕ)
      → InRange ((4, entity_id) ∷ (1, effect) ∷ (1, value) ∷ (2, duration) ∷ [])
      → EntitySends
          (write_entity_effect entity_id effect value duration)
          (packet_entity_effect entity_id effect value duration ∷ [])
  item_spawn :
      (entity_id : ℕ) (item_type_id : ℕ) (amount : ℕ) (item_data : ℕ) (position : AbsIntXyz)
      (orientation : OrientationBytes)
      → InRange (
          (4, entity_id)
          ∷ (2, item_type_id)
          ∷ (1, amount)
          ∷ (2, item_data)
          ∷ (4, position.x)
          ∷ (4, position.y)
          ∷ (4, position.z)
          ∷ (1, orientation.yaw)
          ∷ (1, orientation.pitch)
          ∷ (1, orientation.roll)
          ∷ [])
      → EntitySends
          (write_item_spawn entity_id item_type_id amount item_data position orientation)
          (packet_item_spawn entity_id item_type_id amount item_data position orientation ∷ [])
  experience_orb :
      (entity_id : ℕ) (position : AbsIntXyz) (count : ℕ)
      → InRange
          ((4, entity_id) ∷ (4, position.x) ∷ (4, position.y) ∷ (4, position.z) ∷ (2, count) ∷ [])
      → EntitySends
          (write_experience_orb entity_id position count)
          (packet_experience_orb entity_id position count ∷ [])
  weather :
      (entity_id : ℕ) (raining : Bool) (position : AbsIntXyz)
      → InRange (
          (4, entity_id)
          ∷ (1, bool_to_byte raining)
          ∷ (4, position.x)
          ∷ (4, position.y)
          ∷ (4, position.z)
          ∷ [])
      → EntitySends
          (write_weather entity_id raining position)
          (packet_weather entity_id raining position ∷ [])
  named_entity_spawn :
      (entity_id : ℕ) (name : List ℕ) (position : AbsIntXyz) (look : LookBytes) (current_item : ℕ)
      → InRange ((4, entity_id) ∷ [])
      → IsString16 name
      → InRange (
          (4, position.x)
          ∷ (4, position.y)
          ∷ (4, position.z)
          ∷ (1, look.yaw)
          ∷ (1, look.pitch)
          ∷ (2, current_item)
          ∷ [])
      → EntitySends
          (write_named_entity_spawn entity_id name position look current_item)
          (packet_named_entity_spawn entity_id name position look current_item ∷ [])
  object_spawn :
      (entity_id obj_type : ℕ) (position : AbsIntXyz)
      → InRange (
          (4, entity_id)
          ∷ (1, obj_type)
          ∷ (4, position.x)
          ∷ (4, position.y)
          ∷ (4, position.z)
          ∷ (4, 0)
          ∷ [])
      → EntitySends
          (write_object_spawn entity_id obj_type position none)
          (packet_object_spawn entity_id obj_type position none ∷ [])
  object_spawn_data :
      (entity_id obj_type : ℕ) (position : AbsIntXyz) (d : ObjectData)
      → InRange (
          (4, entity_id)
          ∷ (1, obj_type)
          ∷ (4, position.x)
          ∷ (4, position.y)
          ∷ (4, position.z)
          ∷ (4, d.field1)
          ∷ [])
      → d.field1 ≢ 0
      → InRange ((2, d.field2_0) ∷ (2, d.field2_1) ∷ (2, d.field2_2) ∷ [])
      → EntitySends
          (write_object_spawn entity_id obj_type position (some d))
          (packet_object_spawn entity_id obj_type position (some d) ∷ [])
  entity_spawn :
      (entity_id mob_type : ℕ) (position : AbsIntXyz) (look : LookBytes)
      (items : List EntityMetadata) (bs : Bytes)
      → write_entity_spawn entity_id mob_type position look items ≡ some bs
      → InRange (
          (4, entity_id)
          ∷ (1, mob_type)
          ∷ (4, position.x)
          ∷ (4, position.y)
          ∷ (4, position.z)
          ∷ (1, look.yaw)
          ∷ (1, look.pitch)
          ∷ [])
      → All IsEntry items
      → EntitySends bs
          (packet_entity_spawn entity_id mob_type position look (map without_kind items) ∷ [])
  entity_metadata :
      (entity_id : ℕ) (items : List EntityMetadata) (bs : Bytes)
      → write_entity_metadata entity_id items ≡ some bs
      → InRange ((4, entity_id) ∷ [])
      → All IsEntry items
      → EntitySends bs (packet_entity_metadata entity_id (map without_kind items) ∷ [])
