-- ===== src/Coords.antt =====
-- World coordinates: src/chunkymonkey/types/types.go, and the chunk index of
-- src/chunkymonkey/shardserver/shard.go. Chunk, shard and block coordinates are int32 bit patterns,
-- a block's height is an int8 one, and positions inside a chunk are bytes.
pub mod Chunks
pub mod Shards
pub mod Index
pub mod Nibbles
pub mod Translate
mod Tests
use chunkymonkey.Base.{
  ℕ, ◌+◌, ◌-◌, ◌*◌, ◌/◌, ◌%◌, ◌^◌, bit_and, bit_or, Bool, true, false, not, ◌&&◌, ◌||◌, Option,
  none, some, List, [], ◌∷◌, ltb, ◌==◌, if◌then◌else◌, get_elem?, set,
}
use chunkymonkey.Base.Words.{u8, u32, u64, lt8, le8, lt32, le32, sext32_64}

abbrev pub chunk_h_shift : ℕ
chunk_h_shift = 4

abbrev pub chunk_y_shift : ℕ
chunk_y_shift = 7

abbrev pub chunk_size_h : ℕ
chunk_size_h = 16

abbrev pub chunk_h_mask : ℕ
chunk_h_mask = 15

abbrev pub chunk_y_mask : ℕ
chunk_y_mask = 127

abbrev pub shard_size : ℕ
shard_size = 16

pub record ChunkXz : Type 0 where
  pub x : ℕ
  pub z : ℕ

pub record ShardXz : Type 0 where
  pub x : ℕ
  pub z : ℕ

pub record SubChunkXyz : Type 0 where
  pub x : ℕ
  pub y : ℕ
  pub z : ℕ

pub record BlockXyz : Type 0 where
  pub x : ℕ
  pub y : ℕ
  pub z : ℕ

-- `b >> 4` on an int32, which keeps the sign.
abbrev pub asr4 : ℕ → ℕ
asr4 b = if ltb b (2 ^ 31) then b / 16 else b / 16 + (2 ^ 32 - 2 ^ 28)

-- The chunk that a block coordinate lies in, and the position within it.
unfoldable pub to_chunk_local_coord : ℕ → ℕ × ℕ
to_chunk_local_coord b = (asr4 b, u8 (bit_and b chunk_h_mask))

-- `(*BlockXyz).ToChunkXz`
unfoldable pub to_chunk_xz : BlockXyz → ChunkXz
to_chunk_xz b = record { x = (to_chunk_local_coord b.x).0; z = (to_chunk_local_coord b.z).0 }

-- `(*BlockXyz).ToChunkLocal`
unfoldable pub to_chunk_local : BlockXyz → ChunkXz × SubChunkXyz
to_chunk_local b = (
  record { x = (to_chunk_local_coord b.x).0; z = (to_chunk_local_coord b.z).0 },
  record { x = (to_chunk_local_coord b.x).1; y = u8 b.y; z = (to_chunk_local_coord b.z).1 },
)

-- `(*ChunkXz).ToBlockXyz`
unfoldable pub to_block_xyz : ChunkXz → SubChunkXyz → BlockXyz
to_block_xyz c sub = record {
  x = u32 (u32 (c.x * chunk_size_h) + sub.x);
  y = u8 sub.y;
  z = u32 (u32 (c.z * chunk_size_h) + sub.z);
}

-- `ChunkCoord.ToShardCoord`: division rounds towards zero, and the remainder has the sign of the
-- dividend, so a negative coordinate with a remainder is taken one lower.
unfoldable pub to_shard_coord : ℕ → ℕ
to_shard_coord c =
    let negative = lt32 c 0 in
    let quotient =
      (if negative then u32 (2 ^ 32 - (2 ^ 32 - c) / shard_size) else c / shard_size) in
    let has_remainder = negative && not ((2 ^ 32 - c) % shard_size == 0) in
    if has_remainder then u32 (quotient + 2 ^ 32 - 1) else quotient

-- `(*ChunkXz).ToShardXz`
unfoldable pub to_shard_xz : ChunkXz → ShardXz
to_shard_xz c = record { x = to_shard_coord c.x; z = to_shard_coord c.z }

-- `(*ShardXz).ToChunkXz`
unfoldable pub shard_to_chunk_xz : ShardXz → ChunkXz
shard_to_chunk_xz s = record { x = u32 (s.x * shard_size); z = u32 (s.z * shard_size) }

-- `uint64(x)<<32 | uint64(uint32(z))`
unfoldable pub pair_key : ℕ → ℕ → ℕ
pair_key x z = bit_or (u64 (sext32_64 x * 2 ^ 32)) (u32 z)

-- `(*ShardXz).Key`
unfoldable pub shard_key : ShardXz → ℕ
unfolding pair_key
shard_key s = pair_key s.x s.z

-- `(*ChunkXz).ChunkKey`
unfoldable pub chunk_key : ChunkXz → ℕ
unfolding pair_key
chunk_key c = pair_key c.x c.z

-- `chunkIndexAndRelLoc` of a shard whose lowest chunk is `origin`. `none` is `ok = false`.
unfoldable pub chunk_index_and_rel_loc : ChunkXz → ChunkXz → Option (ℕ × ℕ × ℕ)
chunk_index_and_rel_loc origin loc =
    let x = u32 (loc.x + 2 ^ 32 - origin.x) in
    let z = u32 (loc.z + 2 ^ 32 - origin.z) in
    if lt32 x 0 || lt32 z 0 || le32 shard_size x || le32 shard_size z
    then none
    else some (x * shard_size + z, x, z)

-- `a &^ m`
abbrev pub and_not : ℕ → ℕ → ℕ
and_not a m = a - bit_and a m

-- `(*SubChunkXyz).BlockIndex`: the index and `ok`.
unfoldable pub block_index : SubChunkXyz → ℕ × Bool
block_index sub = (
  bit_or (bit_or (u32 (sub.x * 2 ^ (chunk_h_shift + chunk_y_shift))) sub.y)
      (u32 (sub.z * 2 ^ chunk_y_shift)),
  (and_not (bit_or sub.x sub.z) chunk_h_mask == 0) && (and_not sub.y chunk_y_mask == 0),
)

-- `BlockIndex.ToSubChunkXyz`
unfoldable pub to_sub_chunk_xyz : ℕ → SubChunkXyz
to_sub_chunk_xyz bi =
    let bi1 = bi / 2 ^ chunk_y_shift in
    let bi2 = bi1 / 2 ^ chunk_h_shift in
    record {
      x = u8 (bit_and bi2 chunk_h_mask);
      y = u8 (bit_and bi chunk_y_mask);
      z = u8 (bit_and bi1 chunk_h_mask);
    }

-- `BlockIndex.BlockData`; `none` is an index out of range.
unfoldable pub block_data : ℕ → List ℕ → Option ℕ
block_data bi blocks = elim (get_elem? blocks (bi / 2)) [
  | none ↦ none
  | some b ↦ some (bit_and (b / 2 ^ (bit_and bi 1 * 4)) 0xf)
]

-- The byte that `SetBlockData` writes.
unfoldable pub combine_data : ℕ → ℕ → ℕ → ℕ
combine_data bi old new =
    let shift = bit_and bi 1 * 4 in
    let mask = u8 (0x0f * 2 ^ shift) in
    bit_or (bit_and (u8 (new * 2 ^ shift)) mask) (bit_and old (255 - mask))

-- `BlockIndex.SetBlockData`
unfoldable pub set_block_data : ℕ → List ℕ → ℕ → Option (List ℕ)
set_block_data bi blocks new = elim (get_elem? blocks (bi / 2)) [
  | none ↦ none
  | some old ↦ some (set blocks (bi / 2) (combine_data bi old new))
]

-- `Face.Dxyz` for the six faces and any other value.
unfoldable pub dxyz : ℕ → ℕ × ℕ × ℕ
dxyz f =
    if f == 0
    then (0, 255, 0)
    else if f == 1
    then (0, 1, 0)
    else if f == 2
    then (0, 0, 2 ^ 32 - 1)
    else if f == 3
    then (0, 0, 1)
    else if f == 4
    then (2 ^ 32 - 1, 0, 0)
    else if f == 5
    then (1, 0, 0)
    else (0, 0, 0)

-- The overflow test of `AddXyz` on one int32 axis, with the sum, and on the int8 one.
unfoldable pub overflows32 : ℕ → ℕ → Bool
overflows32 b d =
    let sum = u32 (b + d) in if le32 0 b && lt32 sum d then true else lt32 b 0 && lt32 d sum

unfoldable pub overflows8 : ℕ → ℕ → Bool
overflows8 b d = let sum = u8 (b + d) in if le8 0 b && lt8 sum d then true else lt8 b 0 && lt8 d sum

-- `(*BlockXyz).AddXyz`; the bounds tests that no value of the type can fail are left in.
unfoldable pub add_xyz : BlockXyz → ℕ → ℕ → ℕ → Option BlockXyz
add_xyz b dx dy dz =
    let sum_x = u32 (b.x + dx) in
    let sum_y = u8 (b.y + dy) in
    let sum_z = u32 (b.z + dz) in
    if overflows32 b.x dx || overflows8 b.y dy || overflows32 b.z dz
    then none
    else if lt32 (2 ^ 31 - 1) sum_x || lt32 sum_x (2 ^ 31)
    then none
    else if lt8 127 sum_y || lt8 sum_y 0
    then none
    else if lt32 (2 ^ 31 - 1) sum_z || lt32 sum_z (2 ^ 31)
    then none
    else some (record { x = sum_x; y = sum_y; z = sum_z })
