-- ===== src/Coords/Tests.antt =====
-- Concrete locations, and the theorems at them.
use chunkymonkey.Base.{
  ◌+◌, ◌-◌, ◌*◌, ◌%◌, ◌^◌, ◌<◌, ◌≡◌, refl, arith, ◌&&◌, ◌==◌, none, some, [], ◌∷◌, if◌then◌else◌,
}
use chunkymonkey.Coords.{
  ChunkXz, ShardXz, SubChunkXyz, BlockXyz, to_chunk_local, to_chunk_local_coord, to_chunk_xz,
  to_shard_xz, shard_to_chunk_xz, shard_key, chunk_index_and_rel_loc, block_index, to_sub_chunk_xyz,
  set_block_data, add_xyz, dxyz,
}
use chunkymonkey.Coords.Shards.{chunk_index_lem, chunk_index_injective}
use chunkymonkey.Coords.Index.{to_sub_chunk_xyz-block_index}
use chunkymonkey.Coords.Nibbles.{ReadsBack, set_block_data-ReadsBack}
use chunkymonkey.Coords.Translate.{Moved, add_xyz-Moved}

-- The block at (-1, 64, 17).
abbrev west : BlockXyz
west = record { x = 2 ^ 32 - 1; y = 64; z = 17 }

abbrev inside : SubChunkXyz
inside = record { x = 15; y = 64; z = 1 }

-- The chunk at (-1, 1), and the shard (-1, 0) that holds it.
abbrev west_chunk : ChunkXz
west_chunk = record { x = 2 ^ 32 - 1; z = 1 }

abbrev west_shard : ShardXz
west_shard = record { x = 2 ^ 32 - 1; z = 0 }

west_local : to_chunk_local west ≡ (west_chunk, inside)
unfolding to_chunk_local to_chunk_local_coord
west_local = refl

west_chunk_xz : to_chunk_xz west ≡ west_chunk
unfolding to_chunk_xz to_chunk_local_coord
west_chunk_xz = refl

shard_key_west : shard_key west_shard ≡ (2 ^ 32 - 1) * 2 ^ 32
unfolding shard_key
shard_key_west = refl

up_is : dxyz 1 ≡ (0, 1, 0)
unfolding dxyz
up_is = refl

chunk_index_lem_example : chunk_index_and_rel_loc (shard_to_chunk_xz west_shard) west_chunk ≡ (
    if (to_shard_xz west_chunk).x == 2 ^ 32 - 1 && (to_shard_xz west_chunk).z == 0
    then some ((2 ^ 32 - 1) % 16 * 16 + 1, (2 ^ 32 - 1) % 16, 1)
    else none)
chunk_index_lem_example =
    chunk_index_lem west_shard west_chunk (omega arith) (omega arith) (omega arith) (omega arith)

chunk_index_injective_example : (west_chunk ≡ west_chunk) × (241 < 256)
unfolding chunk_index_and_rel_loc shard_to_chunk_xz
chunk_index_injective_example =
    chunk_index_injective west_shard west_chunk west_chunk 241 (15, 1) (15, 1) (omega arith)
      (omega arith) (omega arith) (omega arith) (omega arith) (omega arith) refl refl

to_sub_chunk_xyz-block_index_example :
    (to_sub_chunk_xyz (block_index inside).0 ≡ inside) × ((block_index inside).0 < 2 ^ 15)
to_sub_chunk_xyz-block_index_example = to_sub_chunk_xyz-block_index inside (omega arith)

set_block_data-ReadsBack_example :
    ReadsBack 3 (0x12 ∷ 0x34 ∷ []) 0xf (set_block_data 3 (0x12 ∷ 0x34 ∷ []) 0xf)
set_block_data-ReadsBack_example = set_block_data-ReadsBack 3 (0x12 ∷ 0x34 ∷ []) 0xf (omega arith)

add_xyz-Moved_example : Moved west 1 1 (2 ^ 32 - 1) (add_xyz west 1 1 (2 ^ 32 - 1))
add_xyz-Moved_example =
    add_xyz-Moved west 1 1 (2 ^ 32 - 1) (omega arith) (omega arith) (omega arith) (omega arith)
