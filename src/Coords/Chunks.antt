-- ===== src/Coords/Chunks.antt =====
-- Block coordinates against chunks and positions in them (src/chunkymonkey/types/types.go).
use chunkymonkey.Base.{ℕ, ◌+◌, ◌-◌, ◌*◌, ◌%◌, ◌^◌, ◌<◌, ◌≤◌, ◌≡◌, arith, ◌⊎◌}
use chunkymonkey.Base.Bits.{and_mask}
use chunkymonkey.Coords.{
  ChunkXz, SubChunkXyz, BlockXyz, asr4, to_chunk_local_coord, to_chunk_local, to_block_xyz,
}

abbrev pub IsBlock : BlockXyz → Type 0
IsBlock b = (b.x < 2 ^ 32) × (b.y < 2 ^ 8) × (b.z < 2 ^ 32)

local_coord_lem : (b : ℕ) → to_chunk_local_coord b ≡ (asr4 b, b % 16)
unfolding to_chunk_local_coord
local_coord_lem b = ground (arith, and_mask 4 b)

coord_back : (b : ℕ) → b < 2 ^ 32 → (asr4 b * 16 % 2 ^ 32 + b % 16) % 2 ^ 32 ≡ b
coord_back b h = ground arith

-- A block's chunk and its position in that chunk lead back to the block, for every int32 and int8 value
-- of its coordinates.
pub to_block_xyz-to_chunk_local :
    (b : BlockXyz) → IsBlock b → let (c, sub) = to_chunk_local b in to_block_xyz c sub ≡ b
unfolding to_block_xyz to_chunk_local
to_block_xyz-to_chunk_local b h =
    rw (local_coord_lem b.x, local_coord_lem b.z) (ground (arith, coord_back b.x, coord_back b.z))

-- A chunk of the world: one whose blocks all have int32 coordinates.
abbrev pub IsWorldCoord : ℕ → Type 0
IsWorldCoord c = (c < 2 ^ 27) ⊎ ((2 ^ 32 - 2 ^ 27 ≤ c) × (c < 2 ^ 32))

abbrev pub IsSubChunk : SubChunkXyz → Type 0
IsSubChunk sub = (sub.x < 16) × (sub.y < 128) × (sub.z < 16)

there :
    (c s : ℕ)
    → IsWorldCoord c
    → s < 16
    → let b = (c * 16 % 2 ^ 32 + s) % 2 ^ 32 in (asr4 b ≡ c) × (b % 16 ≡ s)
there c s h k = ground arith

-- The block at a position inside a chunk has that chunk and that position, if all blocks of the chunk
-- have int32 coordinates.
pub to_chunk_local-to_block_xyz :
    (c : ChunkXz) (sub : SubChunkXyz)
    → IsWorldCoord c.x
    → IsWorldCoord c.z
    → IsSubChunk sub
    → to_chunk_local (to_block_xyz c sub) ≡ (c, sub)
unfolding to_block_xyz to_chunk_local
to_chunk_local-to_block_xyz c sub hx hz hs =
    rw (local_coord_lem (to_block_xyz c sub).x, local_coord_lem (to_block_xyz c sub).z)
      (ground (arith, there c.x sub.x, there c.z sub.z))
