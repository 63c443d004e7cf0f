-- ===== src/Recipe.antt =====
-- Crafting recipes and their matching: src/chunkymonkey/gamerules/recipe.go. The map `recipeHash` is
-- a function to its buckets; `none` is the run-time panic of an index that is out of range, of the
-- slots, of the indices, or of the array of nine indices.
pub mod Grid
pub mod Hashing
pub mod Lookup
pub mod Tests
use chunkymonkey.Base.{
  ℕ, zero, suc, ◌+◌, ◌-◌, ◌*◌, ◌/◌, ◌^◌, bit_and, bit_xor, Bool, true, false, not, ◌&&◌, ◌||◌,
  Option, none, some, List, [], ◌∷◌, ◌++◌, ltb, leb, ◌==◌, if◌then◌else◌, length, get_elem?,
}
use chunkymonkey.Base.Words.{u8, u32, lt8}
use chunkymonkey.Slot.{Slot, empty_slot}
use mathlib.Core.Option.{get_or}
use Prim.Native.String.{String}

abbrev pub fnv1_32_offset : ℕ
fnv1_32_offset = 2166136261

abbrev pub fnv1_32_prime : ℕ
fnv1_32_prime = 16777619

abbrev pub max_recipe_width : ℕ
max_recipe_width = 3

abbrev pub max_recipe_height : ℕ
max_recipe_height = 3

pub record Recipe : Type 0 where
  pub comment : String
  pub width : ℕ
  pub height : ℕ
  pub input : List Slot
  pub output : Slot

-- The loop of `match` over the recipe's input, with the rest of the indices.
unfoldable pub match_inputs : List Slot → List Slot → List ℕ → Option Bool
match_inputs [] slots indices = some true
match_inputs (r ∷ input) slots [] = none
match_inputs (r ∷ input) slots (i ∷ indices) =
    let rest = match_inputs input slots indices in
    elim (get_elem? slots i) [
      | none ↦ none
      | some s ↦
          if not (s.item_type_id == r.item_type_id) || not (s.item_data == r.item_data)
          then some false
          else rest
    ]

unfoldable pub recipe_match : Recipe → ℕ → ℕ → List Slot → List ℕ → Option Bool
recipe_match r width height slots indices =
    if not (width == r.width) || not (height == r.height)
    then some false
    else match_inputs r.input slots indices

-- One round of `inputHash` on a byte.
abbrev pub hash_byte : ℕ → ℕ → ℕ
hash_byte hash b = u32 (bit_xor hash b * fnv1_32_prime)

unfoldable pub hash_slot : ℕ → Slot → ℕ
hash_slot hash s =
    hash_byte
      (hash_byte (hash_byte hash (bit_and s.item_type_id 0xff))
        (bit_and (s.item_type_id / 2 ^ 8) 0xff))
      (bit_and s.item_data 0xff)

-- The loop of `inputHash`, from a hash so far.
unfoldable pub hash_loop : ℕ → List Slot → List ℕ → Option ℕ
hash_loop hash slots [] = some hash
hash_loop hash slots (i ∷ indices) = elim (get_elem? slots i) [
  | none ↦ none
  | some s ↦ hash_loop (hash_slot hash s) slots indices
]

unfoldable pub input_hash : List Slot → List ℕ → Option ℕ
input_hash slots indices = hash_loop fnv1_32_offset slots indices

-- The numbers from `first` on.
unfoldable pub count_up : ℕ → ℕ → List ℕ
count_up first zero = []
count_up first (suc n) = first ∷ count_up (first + 1) n

-- The indices are those of the input itself, so that `inputHash` never panics on them:
-- Recipe/Hashing has a proof, and the 0 stands for nothing.
unfoldable pub recipe_hash : Recipe → ℕ
recipe_hash r = get_or (input_hash r.input (count_up 0 (length r.input))) 0

abbrev pub Buckets : Type 0
Buckets = ℕ → Option (List Recipe)

abbrev pub bucket_of : Option (List Recipe) → List Recipe
bucket_of none = []
bucket_of (some bucket) = bucket

-- The loop of `init`: each recipe is appended to its bucket.
unfoldable pub fill_buckets : List Recipe → Buckets → Buckets
fill_buckets [] m = m
fill_buckets (r ∷ recipes) m =
    fill_buckets recipes λ h. if h == recipe_hash r then some (bucket_of (m h) ++ r ∷ []) else m h

pub record RecipeSet : Type 0 where
  pub recipes : List Recipe
  pub recipe_buckets : Buckets

unfoldable pub init_recipes : List Recipe → RecipeSet
init_recipes recipes = record {
  recipes = recipes;
  recipe_buckets = fill_buckets recipes (λ h. none);
}

-- The smallest rectangle of non-empty slots so far.
pub record Box : Type 0 where
  pub min_x : ℕ
  pub min_y : ℕ
  pub max_x : ℕ
  pub max_y : ℕ

unfoldable pub widen : Slot → ℕ → ℕ → Box → Box
widen s x y b =
    if lt8 0 s.count
    then record {
      min_x = if ltb x b.min_x then x else b.min_x;
      min_y = if ltb y b.min_y then y else b.min_y;
      max_x = if ltb b.max_x x then x else b.max_x;
      max_y = if ltb b.max_y y then y else b.max_y;
    }
    else b

-- The inner loop over the rest of a row, and the outer one over the rest of the rows.
unfoldable pub scan_row : List Slot → ℕ → ℕ → ℕ → ℕ → Box → Option Box
scan_row slots zero x y cur_index b = some b
scan_row slots (suc n) x y cur_index b = elim (get_elem? slots cur_index) [
  | none ↦ none
  | some s ↦ scan_row slots n (x + 1) y (cur_index + 1) (widen s x y b)
]

unfoldable pub scan_rows : List Slot → ℕ → ℕ → ℕ → ℕ → Box → Option Box
scan_rows slots width zero y cur_index b = some b
scan_rows slots width (suc n) y cur_index b = elim (scan_row slots width 0 y cur_index b) [
  | none ↦ none
  | some b' ↦ scan_rows slots width n (y + 1) (cur_index + width) b'
]

unfoldable pub used_box : ℕ → ℕ → List Slot → Option Box
used_box width height slots =
    scan_rows slots width height 0 0
      (record { min_x = width; min_y = height; max_x = 0; max_y = 0 })

-- The indices of the used rectangle: `n` columns of a row, and `n` rows.
unfoldable pub row_indices : ℕ → ℕ → ℕ → ℕ → List ℕ
row_indices width y x zero = []
row_indices width y x (suc n) = (y * width + x) ∷ row_indices width y (x + 1) n

unfoldable pub box_indices : ℕ → ℕ → ℕ → ℕ → ℕ → List ℕ
box_indices width x columns y zero = []
box_indices width x columns y (suc n) =
    row_indices width y x columns ++ box_indices width x columns (y + 1) n

-- The loop over a bucket, with the output so far: the last match counts.
unfoldable pub find_match : List Recipe → ℕ → ℕ → List Slot → List ℕ → Slot → Option Slot
find_match [] width height slots indices output = some output
find_match (r ∷ recipes) width height slots indices output =
    elim (recipe_match r width height slots indices) [
      | none ↦ none
      | some matched ↦
          find_match recipes width height slots indices (if matched then r.output else output)
    ]

-- `widthUsed` counts rows and `heightUsed` columns, as in the source.
unfoldable pub width_used : Box → ℕ
width_used b = 1 + b.max_y - b.min_y

unfoldable pub height_used : Box → ℕ
height_used b = 1 + b.max_x - b.min_x

-- The array of indices has room for `maxRecipeWidth * maxRecipeHeight`.
unfoldable pub used_indices : ℕ → Box → Option (List ℕ)
used_indices width b =
    if ltb (max_recipe_width * max_recipe_height) (width_used b * height_used b)
    then none
    else some (box_indices width b.min_x (height_used b) b.min_y (width_used b))

-- `Match` from the hash of the used rectangle on.
unfoldable pub match_indices : RecipeSet → Box → List Slot → List ℕ → Option Slot
match_indices set b slots indices = elim (input_hash slots indices) [
  | none ↦ none
  | some hash ↦ elim (set.recipe_buckets hash) [
    | none ↦ some empty_slot
    | some bucket ↦
        find_match bucket (u8 (width_used b)) (u8 (height_used b)) slots indices empty_slot
  ]
]

-- `Match` once the used rectangle is known.
unfoldable pub match_box : RecipeSet → ℕ → List Slot → Box → Option Slot
match_box set width slots b =
    if leb (1 + b.max_y) b.min_y || leb (1 + b.max_x) b.min_x
    then some empty_slot
    else elim (used_indices width b) [
      | none ↦ none
      | some indices ↦ match_indices set b slots indices
    ]

-- `(*RecipeSetMatcher).Match`
unfoldable pub match_recipe : RecipeSet → ℕ → ℕ → List Slot → Option Slot
match_recipe set width height slots =
    if not (width * height == length slots)
      || ltb max_recipe_width width
      || ltb max_recipe_height height
    then some empty_slot
    else elim (used_box width height slots) [ none ↦ none | some b ↦ match_box set width slots b ]
