-- ===== src/Recipe/Tests.antt =====
-- Concrete recipes, and the theorems at them.
use chunkymonkey.Base.{◌<◌, ◌≡◌, refl, arith, none, some, List, [], ◌∷◌, All}
use chunkymonkey.Slot.{Slot, empty_slot}
use chunkymonkey.Slot.Tests.{stack, doors}
use chunkymonkey.Recipe.{
  Box, match_box, match_indices, Recipe, init_recipes, match_recipe, used_box, used_indices,
  scan_row, scan_rows, widen, row_indices, box_indices, width_used, height_used, recipe_hash,
  input_hash, hash_loop, hash_slot, count_up, fill_buckets, find_match, recipe_match, match_inputs,
}
use chunkymonkey.Recipe.Grid.{used_indices-below}
use chunkymonkey.Recipe.Lookup.{match_reference, match_recipe-init, match_recipe-total}

-- A door from two planks, one above the other.
abbrev pub door_recipe : Recipe
door_recipe = record {
  comment = "door";
  width = 2;
  height = 1;
  input = stack 1 ∷ stack 1 ∷ [];
  output = doors;
}

abbrev pub book : List Recipe
book = door_recipe ∷ []

-- The right column of a grid of two by two.
abbrev pub grid : List Slot
grid = empty_slot ∷ stack 3 ∷ empty_slot ∷ stack 8 ∷ []

-- The right column.
abbrev right_box : Box
right_box = record { min_x = 1; min_y = 0; max_x = 1; max_y = 1 }

grid_box : used_box 2 2 grid ≡ some right_box
unfolding used_box scan_rows scan_row widen
grid_box = refl

grid_indices : used_indices 2 right_box ≡ some (1 ∷ 3 ∷ [])
unfolding used_indices box_indices row_indices width_used height_used
grid_indices = refl

door_made : match_recipe (init_recipes book) 2 2 grid ≡ some doors
unfolding match_recipe match_box match_indices init_recipes fill_buckets recipe_hash input_hash
    hash_loop hash_slot count_up find_match recipe_match match_inputs used_indices used_box
    scan_rows scan_row widen box_indices row_indices width_used height_used
door_made = refl

match_recipe-init_example :
    match_recipe (init_recipes book) 2 2 grid ≡ match_reference book 2 2 grid
match_recipe-init_example = match_recipe-init book 2 2 grid (refl, tt)

match_recipe-total_example : (made : Slot) × (match_recipe (init_recipes book) 2 2 grid ≡ some made)
match_recipe-total_example = match_recipe-total book 2 2 grid (refl, tt) (omega arith) (omega arith)

used_indices-below_example : All (λ i. i < 4) (1 ∷ 3 ∷ [])
used_indices-below_example =
    used_indices-below 2 2 grid right_box (1 ∷ 3 ∷ []) grid_box grid_indices (omega arith)
      (omega arith) (omega arith) (omega arith)

-- A grid of no cells has a rectangle of one cell, whose index is out of range.
no_cells : match_recipe (init_recipes book) 0 0 [] ≡ none
unfolding match_recipe match_box match_indices init_recipes input_hash hash_loop used_indices
    used_box scan_rows box_indices row_indices width_used height_used
no_cells = refl
