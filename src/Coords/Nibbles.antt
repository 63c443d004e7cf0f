-- ===== src/Coords/Nibbles.antt =====
-- Block metadata, two values to a byte (src/chunkymonkey/types/types.go: BlockData, SetBlockData).
use chunkymonkey.Base.{
  ℕ, ◌+◌, ◌*◌, ◌/◌, ◌%◌, ◌^◌, ◌<◌, ◌≤◌, ◌≡◌, refl, sym, ap, ◌∙◌, arith, bit_and, ◌==◌, Option, none,
  some, List, length, get_elem?, set, get_elem?_total, get_elem?-set_self, get_elem?-set_ne,
  get_elem?-none, All, All-get, lt-length_of_get, if◌then◌else◌,
}
use mathlib.Core.Option
use native.Mathlib.Decide.{ℕ_discrete, dec_lt}
use chunkymonkey.Base.Bits.{and_high_half, or_disjoint, or_comm, and_mask}
use chunkymonkey.Coords.{block_data, combine_data, set_block_data}

combine_even :
    (bi old new : ℕ) → old < 256 → bi % 2 ≡ 0 → combine_data bi old new ≡ old / 16 * 16 + new % 16
unfolding combine_data
combine_even bi old new h e =
    rw (and_mask 1 bi, e)
      (ground (
        arith,
        and_mask 4 (new % 256),
        and_high_half old h,
        or_comm (new % 16) (old / 16 * 16),
        or_disjoint 4 (old / 16) (new % 16),
      ))

combine_odd :
    (bi old new : ℕ) → old < 256 → bi % 2 ≡ 1 → combine_data bi old new ≡ new % 16 * 16 + old % 16
unfolding combine_data
combine_odd bi old new h e =
    rw (and_mask 1 bi, e)
      (ground (
        arith,
        and_mask 4 old,
        and_high_half (new * 16 % 256),
        or_disjoint 4 (new % 16) (old % 16),
      ))

-- The nibble that an index selects from its byte.
abbrev nibble : ℕ → ℕ → ℕ
nibble bi b = bit_and (b / 2 ^ (bit_and bi 1 * 4)) 0xf

nibble_even : (bi b : ℕ) → bi % 2 ≡ 0 → nibble bi b ≡ b % 16
nibble_even bi b e = rw (and_mask 1 bi, e) (omega (arith, and_mask 4 (b / 1)))

nibble_odd : (bi b : ℕ) → bi % 2 ≡ 1 → nibble bi b ≡ b / 16 % 16
nibble_odd bi b e = rw (and_mask 1 bi, e) (and_mask 4 (b / 16))

-- The written byte has the new nibble where the index points, and the old one beside it.
nibble-combine :
    (bi bj old new : ℕ)
    → old < 256
    → bj / 2 ≡ bi / 2
    → nibble bj (combine_data bi old new) ≡ (if bj == bi then new % 16 else nibble bj old)
nibble-combine bi bj old new h same = ground (
  arith,
  combine_even bi old new h,
  combine_odd bi old new h,
  nibble_even bj (combine_data bi old new),
  nibble_odd bj (combine_data bi old new),
  nibble_even bj old,
  nibble_odd bj old,
)

read_lem :
    (bj : ℕ) (blocks : List ℕ) (o : Option ℕ)
    → get_elem? blocks (bj / 2) ≡ o
    → block_data bj blocks ≡ Option.map (nibble bj) o
unfolding block_data
read_lem bj blocks none e = rw (e, block_data) refl
read_lem bj blocks (some b) e = rw (e, block_data) refl

write_lem :
    (bi : ℕ) (blocks : List ℕ) (new old : ℕ)
    → get_elem? blocks (bi / 2) ≡ some old
    → set_block_data bi blocks new ≡ some (set blocks (bi / 2) (combine_data bi old new))
unfolding set_block_data
write_lem bi blocks new old e = rw (e, set_block_data) refl

write_fails :
    (bi : ℕ) (blocks : List ℕ) (new : ℕ)
    → length blocks ≤ bi / 2
    → set_block_data bi blocks new ≡ none
unfolding set_block_data
write_fails bi blocks new h = rw (get_elem?-none blocks (bi / 2) h, set_block_data) refl

reads_written :
    (bi bj new old : ℕ) (blocks : List ℕ)
    → old < 256
    → get_elem? blocks (bi / 2) ≡ some old
    → block_data bj (set blocks (bi / 2) (combine_data bi old new))
      ≡ (if bj == bi then some (new % 16) else block_data bj blocks)
reads_written bi bj new old blocks h e = elim (ℕ_discrete (bj / 2) (bi / 2)) [
  | yes same ↦ ground (
    arith,
    read_lem bj (set blocks (bi / 2) (combine_data bi old new)) (some (combine_data bi old new)) (
        ap (get_elem? (set blocks (bi / 2) (combine_data bi old new))) same
        ∙ get_elem?-set_self blocks (bi / 2) _ (lt-length_of_get blocks (bi / 2) old e)),
    read_lem bj blocks (some old) (ap (get_elem? blocks) same ∙ e),
    nibble-combine bi bj old new h same,
  )
  | no other ↦ ground (
    arith,
    read_lem bj (set blocks (bi / 2) (combine_data bi old new)) _
        (get_elem?-set_ne blocks (bi / 2) (bj / 2) _ (λ q. other (sym q))),
    read_lem bj blocks (get_elem? blocks (bj / 2)) refl,
  )
]

-- What `SetBlockData` returns; `none` is the panic of an index out of range.
abbrev pub ReadsBack : ℕ → List ℕ → ℕ → Option (List ℕ) → Type 0
ReadsBack bi blocks new none = length blocks ≤ bi / 2
ReadsBack bi blocks new (some blocks') =
    (bj : ℕ) → block_data bj blocks' ≡ (if bj == bi then some (new % 16) else block_data bj blocks)

-- On an array of bytes, `SetBlockData` panics only where the index is out of range; otherwise its own
-- index then reads the low four bits of the value and every other index reads what it read before,
-- the neighbour in the same byte included.
pub set_block_data-ReadsBack :
    (bi : ℕ) (blocks : List ℕ) (new : ℕ)
    → All (λ b. b < 256) blocks
    → ReadsBack bi blocks new (set_block_data bi blocks new)
set_block_data-ReadsBack bi blocks new bytes = elim (dec_lt (bi / 2) (length blocks)) [
  | no h ↦ rw (write_fails bi blocks new (omega arith)) (omega arith)
  | yes h ↦
      let (old, e) = get_elem?_total blocks (bi / 2) h in
      rw (write_lem bi blocks new old e) λ bj.
        reads_written bi bj new old blocks (All-get (λ b. b < 256) blocks (bi / 2) old bytes e) e
]
