-- ===== src/Coords/Shards.antt =====
-- Shards, the index of a chunk in its shard, and hash keys (src/chunkymonkey/types/types.go and
-- src/chunkymonkey/shardserver/shard.go).
use chunkymonkey.Base.{
  ℕ, ◌+◌, ◌-◌, ◌*◌, ◌%◌, ◌^◌, ◌<◌, ◌≡◌, ◌↔◌, arith, false, ◌||◌, ◌&&◌, ◌==◌, none, some,
  if◌then◌else◌,
}
use chunkymonkey.Base.Words.{u32, lt32, le32}
use chunkymonkey.Base.Bits.{or_disjoint}
use chunkymonkey.Coords.{
  ChunkXz, ShardXz, asr4, to_shard_coord, to_shard_xz, shard_to_chunk_xz, pair_key, chunk_key,
  chunk_index_and_rel_loc,
}
use chunkymonkey.Coords.Chunks.{IsWorldCoord}

-- On every int32 value, the division towards zero with its correction is an arithmetic shift by four
-- bits: it rounds down.
pub to_shard_coord_lem : (c : ℕ) → c < 2 ^ 32 → to_shard_coord c ≡ asr4 c
unfolding to_shard_coord
to_shard_coord_lem c h = ground arith

axis_lem :
    (s c : ℕ)
    → IsWorldCoord s
    → c < 2 ^ 32
    → let x = u32 (c + 2 ^ 32 - u32 (s * 16)) in
      ((lt32 x 0 || le32 16 x) ≡ false) ↔ (to_shard_coord c ≡ s)
axis_lem s c hs hc =
    (λ h. ground (arith, to_shard_coord_lem c hc), λ h. ground (arith, to_shard_coord_lem c hc))

key_lem : (x z : ℕ) → x < 2 ^ 32 → z < 2 ^ 32 → pair_key x z ≡ x * 2 ^ 32 + z
unfolding pair_key
key_lem x z hx hz = ground (arith, or_disjoint 32 x z)

-- Chunk locations with int32 coordinates and equal keys are equal, so a table keyed by them never mixes
-- up two.
pub key_injective :
    (c d : ChunkXz)
    → c.x < 2 ^ 32
    → c.z < 2 ^ 32
    → d.x < 2 ^ 32
    → d.z < 2 ^ 32
    → chunk_key c ≡ chunk_key d
    → c ≡ d
unfolding chunk_key
key_injective c d hcx hcz hdx hdz e = ground (arith, key_lem c.x c.z, key_lem d.x d.z)

rel_lem :
    (s c : ℕ)
    → IsWorldCoord s
    → c < 2 ^ 32
    → to_shard_coord c ≡ s
    → u32 (c + 2 ^ 32 - u32 (s * 16)) ≡ c % 16
rel_lem s c hs hc h = ground (arith, to_shard_coord_lem c hc)

-- A shard of the world has an index for exactly the chunks with int32 coordinates whose location
-- converts to its own, and the index is made of the low four bits of each coordinate.
pub chunk_index_lem :
    (s : ShardXz) (c : ChunkXz)
    → IsWorldCoord s.x
    → IsWorldCoord s.z
    → c.x < 2 ^ 32
    → c.z < 2 ^ 32
    → chunk_index_and_rel_loc (shard_to_chunk_xz s) c ≡ (
        if (to_shard_xz c).x == s.x && (to_shard_xz c).z == s.z
        then some (c.x % 16 * 16 + c.z % 16, c.x % 16, c.z % 16)
        else none)
unfolding chunk_index_and_rel_loc shard_to_chunk_xz to_shard_xz
chunk_index_lem s c hx hz hcx hcz = ground (
  arith,
  axis_lem s.x c.x hx hcx,
  axis_lem s.z c.z hz hcz,
  rel_lem s.x c.x hx hcx,
  rel_lem s.z c.z hz hcz,
)

coord_of_parts : (a b : ℕ) → a < 2 ^ 32 → b < 2 ^ 32 → asr4 a ≡ asr4 b → a % 16 ≡ b % 16 → a ≡ b
coord_of_parts a b ha hb e f = ground arith

-- Two chunks with int32 coordinates that have the same index in a shard of the world are the same
-- chunk, and the index is below the 256 places of the shard's array.
pub chunk_index_injective :
    (s : ShardXz) (c d : ChunkXz) (i : ℕ) (p q : ℕ × ℕ)
    → IsWorldCoord s.x
    → IsWorldCoord s.z
    → c.x < 2 ^ 32
    → c.z < 2 ^ 32
    → d.x < 2 ^ 32
    → d.z < 2 ^ 32
    → chunk_index_and_rel_loc (shard_to_chunk_xz s) c ≡ some (i, p.0, p.1)
    → chunk_index_and_rel_loc (shard_to_chunk_xz s) d ≡ some (i, q.0, q.1)
    → (c ≡ d) × (i < 256)
unfolding to_shard_xz
chunk_index_injective s c d i p q hx hz hcx hcz hdx hdz e f = ground (
  arith,
  chunk_index_lem s c hx hz hcx hcz,
  chunk_index_lem s d hx hz hdx hdz,
  to_shard_coord_lem c.x hcx,
  to_shard_coord_lem c.z hcz,
  to_shard_coord_lem d.x hdx,
  to_shard_coord_lem d.z hdz,
  coord_of_parts c.x d.x hcx hdx,
  coord_of_parts c.z d.z hcz hdz,
)
