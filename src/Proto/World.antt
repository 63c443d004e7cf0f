-- ===== src/Proto/World.antt =====
-- Packets of src/chunkymonkey/proto/proto.go about chunks, blocks and noises.
use chunkymonkey.Base.{
  ℕ, zero, suc, ◌*◌, ◌/◌, ◌^◌, bit_and, bit_or, ◌||◌, Option, none, some, List, [], ◌∷◌, ◌++◌, map,
  ltb, if◌then◌else◌, length, replicate,
}
use chunkymonkey.Base.Words.{u8, u16, u32, lt16, lt32, sext16_64}
use chunkymonkey.Coords.{chunk_size_h, ChunkXz, SubChunkXyz, BlockXyz, block_data}
use chunkymonkey.Proto.Wire.{
  Bytes, Received, put_fields, put_array, read_array_or, read_with, read_array, eof, panic,
  received, failed,
}
use chunkymonkey.Proto.Ids.{
  packet_id_pre_chunk, packet_id_map_chunk, packet_id_block_change_multi, packet_id_block_change,
  packet_id_note_block_play, packet_id_explosion, packet_id_sound_effect,
}
use chunkymonkey.Proto.Event.{
  AbsXyz, ExplosionOffsetXyz, abs_xyz, sub_chunk_size, explosion_offset_xyz, block_xyz, chunk_xz,
  sub_chunk_xyz, Event, packet_pre_chunk, packet_map_chunk, packet_block_change_multi,
  packet_block_change, packet_note_block_play, packet_explosion, packet_sound_effect,
}

unfoldable pub write_pre_chunk : ChunkXz → ℕ → Bytes
write_pre_chunk chunk_loc mode =
    packet_id_pre_chunk ∷ put_fields ((4, chunk_loc.x) ∷ (4, chunk_loc.z) ∷ (1, mode) ∷ [])

unfoldable pub read_pre_chunk : Bytes → Received Event
read_pre_chunk =
    read_with (4 ∷ 4 ∷ 1 ∷ [])
      (λ x z mode rest. received (packet_pre_chunk (chunk_xz x z) mode ∷ []) rest)

unfoldable pub write_block_change : BlockXyz → ℕ → ℕ → Bytes
write_block_change block_loc block_type block_meta_data =
    packet_id_block_change
    ∷ put_fields (
        (4, block_loc.x)
        ∷ (1, block_loc.y)
        ∷ (4, block_loc.z)
        ∷ (1, block_type)
        ∷ (1, block_meta_data)
        ∷ [])

unfoldable pub read_block_change : Bytes → Received Event
read_block_change = read_with (4 ∷ 1 ∷ 4 ∷ 1 ∷ 1 ∷ []) (λ x y z block_type block_meta_data rest.
    received (packet_block_change (block_xyz x y z) block_type block_meta_data ∷ []) rest)

unfoldable pub write_note_block_play : BlockXyz → ℕ → ℕ → Bytes
write_note_block_play position instrument pitch =
    packet_id_note_block_play
    ∷ put_fields
        ((4, position.x) ∷ (1, position.y) ∷ (4, position.z) ∷ (1, instrument) ∷ (1, pitch) ∷ [])

unfoldable pub read_note_block_play : Bytes → Received Event
read_note_block_play = read_with (4 ∷ 1 ∷ 4 ∷ 1 ∷ 1 ∷ []) (λ x y z instrument pitch rest.
    received (packet_note_block_play (block_xyz x y z) instrument pitch ∷ []) rest)

unfoldable pub write_sound_effect : ℕ → BlockXyz → ℕ → Bytes
write_sound_effect sound position item_data =
    packet_id_sound_effect
    ∷ put_fields
        ((4, sound) ∷ (4, position.x) ∷ (1, position.y) ∷ (4, position.z) ∷ (4, item_data) ∷ [])

unfoldable pub read_sound_effect : Bytes → Received Event
read_sound_effect = read_with (4 ∷ 4 ∷ 1 ∷ 4 ∷ 4 ∷ []) (λ sound x y z item_data rest.
    received (packet_sound_effect sound (block_xyz x y z) item_data ∷ []) rest)

-- The compressor is a library's; what it makes of the four arrays written to it is a parameter.
unfoldable pub write_map_chunk : (Bytes → Bytes) → ChunkXz → Bytes → Bytes → Bytes → Bytes → Bytes
write_map_chunk compress chunk_loc blocks block_data block_light sky_light =
    let bs = compress (blocks ++ block_data ++ block_light ++ sky_light) in
    packet_id_map_chunk
    ∷ (put_fields (
          (4, u32 (chunk_loc.x * chunk_size_h))
          ∷ (2, 0)
          ∷ (4, u32 (chunk_loc.z * chunk_size_h))
          ∷ (1, 15)
          ∷ (1, 127)
          ∷ (1, 15)
          ∷ (4, u32 (length bs))
          ∷ [])
        ++ put_array 1 bs)

unfoldable pub read_map_chunk : Bytes → Received Event
read_map_chunk =
    read_with (4 ∷ 2 ∷ 4 ∷ 1 ∷ 1 ∷ 1 ∷ 4 ∷ []) (λ x y z size_x size_y size_z compressed_length.
      if lt32 compressed_length 0
      then (λ rest. failed [] panic)
      else read_array 1 compressed_length (λ block_bytes rest.
        received
          (packet_map_chunk (block_xyz x (u8 y) z) (sub_chunk_size size_x size_y size_z) block_bytes
            ∷ [])
          rest))

-- The shifts are made on bytes, before the results are widened to int16.
abbrev pub raw_block_coord : SubChunkXyz → ℕ
raw_block_coord loc =
    bit_or (bit_or (u8 (bit_and loc.x 0x0f * 2 ^ 12)) (bit_and loc.y 0xff))
      (u8 (bit_and loc.z 0x0f * 2 ^ 8))

-- `none` is the panic of a negative count, or of an index past the end when the count wrapped around.
-- The types and the metadata of the blocks are not written.
unfoldable pub write_block_change_multi :
    ChunkXz → List SubChunkXyz → List ℕ → List ℕ → Option Bytes
write_block_change_multi chunk_loc block_coords block_types block_meta_data =
    let count = u16 (length block_coords) in
    if lt16 count 0 || ltb count (length block_coords)
    then none
    else some (
        packet_id_block_change_multi
        ∷ (put_fields ((4, chunk_loc.x) ∷ (4, chunk_loc.z) ∷ (2, count) ∷ [])
            ++ put_array 2 (map raw_block_coord block_coords)))

-- The shift of an int16 keeps its sign, and the conversion to a byte keeps eight bits of it.
abbrev pub block_loc_read : ℕ → SubChunkXyz
block_loc_read raw =
    sub_chunk_xyz (u8 (sext16_64 raw / 2 ^ 12)) (bit_and raw 0xff) (bit_and (raw / 2 ^ 8) 0x0f)

-- The handler is called after failed reads too, whose arrays are left full of zeros; a stream that
-- ended in one array has nothing for the next.
unfoldable pub read_block_change_multi : Bytes → Received Event
read_block_change_multi = read_with (4 ∷ 4 ∷ 2 ∷ []) (λ x z count.
    let zeros = replicate count 0 in
    let call = λ (locs types metadata : List ℕ).
      packet_block_change_multi (chunk_xz x z) (map block_loc_read locs) types metadata in
    if lt16 count 0
    then (λ rest. failed [] panic)
    else read_array_or (failed (call zeros zeros zeros ∷ []) eof) 2 count (λ locs.
      read_array_or (failed (call locs zeros zeros ∷ []) eof) 1 count (λ types.
        read_array_or (failed (call locs types zeros ∷ []) eof) 1 count
          (λ metadata rest. received (call locs types metadata ∷ []) rest))))

unfoldable pub put_offsets : List ExplosionOffsetXyz → Bytes
put_offsets [] = []
put_offsets (o ∷ offsets) = put_fields ((1, o.x) ∷ (1, o.y) ∷ (1, o.z) ∷ []) ++ put_offsets offsets

unfoldable pub write_explosion : AbsXyz → ℕ → List ExplosionOffsetXyz → Bytes
write_explosion position power block_offsets =
    packet_id_explosion
    ∷ (put_fields (
          (8, position.x)
          ∷ (8, position.y)
          ∷ (8, position.z)
          ∷ (4, power)
          ∷ (4, u32 (length block_offsets))
          ∷ [])
        ++ put_offsets block_offsets)

unfoldable pub read_offsets :
    ℕ → (List ExplosionOffsetXyz → Bytes → Received Event) → Bytes → Received Event
read_offsets zero k = k []
read_offsets (suc n) k =
    read_with (1 ∷ 1 ∷ 1 ∷ [])
      (λ x y z. read_offsets n (λ offsets. k (explosion_offset_xyz x y z ∷ offsets)))

unfoldable pub read_explosion : Bytes → Received Event
read_explosion = read_with (8 ∷ 8 ∷ 8 ∷ 4 ∷ 4 ∷ []) (λ x y z power num_blocks.
    if lt32 num_blocks 0
    then (λ rest. failed [] panic)
    else read_offsets num_blocks
        (λ offsets rest. received (packet_explosion (abs_xyz x y z) power offsets ∷ []) rest))
