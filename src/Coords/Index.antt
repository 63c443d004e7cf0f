-- ===== src/Coords/Index.antt =====
-- The index of a block in its chunk's arrays (src/chunkymonkey/types/types.go: BlockIndex,
-- ToSubChunkXyz).
use chunkymonkey.Base.{ℕ, ◌+◌, ◌*◌, ◌/◌, ◌%◌, ◌^◌, ◌<◌, ◌≡◌, ◌∙◌, ◌↔◌, arith, bit_and, bit_or, true}
use chunkymonkey.Base.Bits.{or_disjoint, and_mask, or_below, or_high, le-or_left, le-or_right}
use chunkymonkey.Coords.{SubChunkXyz, block_index, to_sub_chunk_xyz}
use chunkymonkey.Coords.Chunks.{IsSubChunk}

abbrev pub IsBytes : SubChunkXyz → Type 0
IsBytes sub = (sub.x < 256) × (sub.y < 256) × (sub.z < 256)

-- `BlockIndex` reports `ok` for a position of three bytes exactly if it lies inside a chunk.
pub block_index_valid :
    (sub : SubChunkXyz) → IsBytes sub → ((block_index sub).1 ≡ true) ↔ IsSubChunk sub
unfolding block_index
block_index_valid sub h = (
  λ e. ground (arith, mask_lem, and_mask 7 sub.y, le-or_left sub.x sub.z, le-or_right sub.x sub.z),
  λ v. ground (arith, mask_lem, and_mask 7 sub.y, or_below 4 sub.x sub.z),
)
  where
    mask_lem : bit_and (bit_or sub.x sub.z) 15 ≡ bit_or sub.x sub.z % 16
    mask_lem = and_mask 4 (bit_or sub.x sub.z)

index_sum :
    (sub : SubChunkXyz) → IsSubChunk sub → (block_index sub).0 ≡ (sub.x * 16 + sub.z) * 128 + sub.y
unfolding block_index
index_sum sub h = ground (
  arith,
  or_disjoint 11 sub.x sub.y,
  or_high 7 (sub.x * 16) sub.z sub.y,
  or_disjoint 4 sub.x sub.z,
)

-- The index of a position inside a chunk leads back to the position, and lies within the 32768
-- blocks of a chunk.
pub to_sub_chunk_xyz-block_index :
    (sub : SubChunkXyz)
    → IsSubChunk sub
    → (to_sub_chunk_xyz (block_index sub).0 ≡ sub) × ((block_index sub).0 < 2 ^ 15)
unfolding to_sub_chunk_xyz
to_sub_chunk_xyz-block_index sub h = rw (index_sum sub h) (
  ground (
    arith,
    and_mask 7 ((sub.x * 16 + sub.z) * 128 + sub.y),
    and_mask 4 (((sub.x * 16 + sub.z) * 128 + sub.y) / 128),
    and_mask 4 (((sub.x * 16 + sub.z) * 128 + sub.y) / 128 / 16),
  ),
  omega arith,
)

sub_chunk_lem :
    (bi : ℕ)
    → to_sub_chunk_xyz bi ≡ record { x = bi / 128 / 16 % 16; y = bi % 128; z = bi / 128 % 16 }
unfolding to_sub_chunk_xyz
sub_chunk_lem bi = ground (arith, and_mask 7 bi, and_mask 4 (bi / 128), and_mask 4 (bi / 128 / 16))

-- Every index below the 32768 blocks of a chunk is the index of the position that it is converted to.
pub block_index-to_sub_chunk_xyz :
    (bi : ℕ) → bi < 2 ^ 15 → (block_index (to_sub_chunk_xyz bi)).0 ≡ bi
block_index-to_sub_chunk_xyz bi h = rw (sub_chunk_lem bi) (index_sum _ (omega arith) ∙ omega arith)
