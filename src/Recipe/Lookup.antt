-- ===== src/Recipe/Lookup.antt =====
-- Matching through the hash buckets against a search of all recipes
-- (src/chunkymonkey/gamerules/recipe.go: inputHash, init, Match).
use chunkymonkey.Base.{
  true, subst, ◌<◌, ℕ, ◌+◌, ◌*◌, ◌≤◌, ◌≡◌, ◌≢◌, refl, sym, ap, ◌∙◌, arith, false, not, ◌||◌, Option,
  none, some, List, [], ◌∷◌, ◌++◌, ltb, leb, ◌==◌, if◌then◌else◌, length, All, inl, inr, Bool-cases,
  Option-cases,
}
use mathlib.Core.List.{append_assoc, append-nil}
use mathlib.Core.Option.{some-injective, none-ne-some}
use chunkymonkey.Base.Words.{u8}
use chunkymonkey.Slot.{Slot, empty_slot}
use chunkymonkey.Recipe.{
  Recipe, Box, Buckets, bucket_of, recipe_match, input_hash, recipe_hash, fill_buckets,
  init_recipes, find_match, match_recipe, used_box, used_indices, width_used, height_used,
  max_recipe_width, max_recipe_height, match_box, match_indices, box_indices,
}
use chunkymonkey.Recipe.Grid.{
  Within, used_box-Within, used_box-total, used_indices-total, used_indices-below,
  length-box_indices,
}
use chunkymonkey.Recipe.Hashing.{IsRecipe, never_faults, other_bucket, in_range, input_hash-cases}

-- `Match` without the hash: the last of all recipes that matches the used rectangle. An index past the
-- end is a panic, as there.
unfoldable pub search_box : List Recipe → ℕ → List Slot → Box → Option Slot
search_box recipes width slots b =
    if leb (1 + b.max_y) b.min_y || leb (1 + b.max_x) b.min_x
    then some empty_slot
    else elim (used_indices width b) [
      | none ↦ none
      | some indices ↦
          if in_range slots indices
          then find_match recipes (width_used b) (height_used b) slots indices empty_slot
          else none
    ]

unfoldable pub match_reference : List Recipe → ℕ → ℕ → List Slot → Option Slot
match_reference recipes width height slots =
    if not (width * height == length slots)
      || ltb max_recipe_width width
      || ltb max_recipe_height height
    then some empty_slot
    else elim (used_box width height slots) [
      | none ↦ none
      | some b ↦ search_box recipes width slots b
    ]

module _ (w h k : ℕ) (slots : List Slot) (indices : List ℕ) (size : length indices ≡ w * h)
    (inside : All (λ i. i < length slots) indices)
    (hashed : input_hash slots indices ≡ some k) where
  skip :
      (b recipes : List Recipe) (r : Recipe) (out : Slot)
      → recipe_match r w h slots indices ≡ some false
      → find_match (b ++ r ∷ recipes) w h slots indices out
        ≡ find_match (b ++ recipes) w h slots indices out
  unfolding find_match
  skip [] recipes r out e = rw (e, find_match) refl
  skip (x ∷ b) recipes r out e = elim (Option-cases (recipe_match x w h slots indices)) [
    | inl g ↦ rw (g, find_match) refl
    | inr (hit, g) ↦ rw (g, find_match) (skip b recipes r _ e)
  ]

  -- Going through the bucket finds what going through all recipes does.
  bucket_lem :
      (recipes : List Recipe) (m : Buckets) (out : Slot)
      → All IsRecipe recipes
      → find_match (bucket_of (fill_buckets recipes m k)) w h slots indices out
        ≡ find_match (bucket_of (m k) ++ recipes) w h slots indices out
  unfolding fill_buckets
  bucket_lem [] m out v = ap (λ b. find_match b w h slots indices out) (sym (append-nil _))
  bucket_lem (r ∷ recipes) m out v =
      bucket_lem recipes _ out v.1 ∙ elim (Bool-cases (k == recipe_hash r)) [
        | inl e ↦ rw e (
            ap (λ b. find_match b w h slots indices out)
              (append_assoc (bucket_of (m k)) (r ∷ []) recipes))
        | inr e ↦ rw e (
            sym (
              skip (bucket_of (m k)) recipes r out (
                other_bucket r w h k slots indices v.0 size inside hashed
                  (λ q. different e (sym q)))))
      ]
    where
      different : {a b : ℕ} → (a == b) ≡ false → a ≢ b
      different e q = ground arith

  looked_up :
      (w' h' : ℕ) (bucket : Option (List Recipe)) (out : Slot)
      → w' ≡ w
      → h' ≡ h
      → elim bucket [ none ↦ some out | some b ↦ find_match b w' h' slots indices out ]
        ≡ find_match (bucket_of bucket) w h slots indices out
  unfolding find_match
  looked_up w' h' none out e e' = refl
  looked_up w' h' (some b) out e e' =
      ap (λ k. find_match b k h' slots indices out) e
      ∙ ap (λ k. find_match b w k slots indices out) e'

used_size :
    (width : ℕ) (b : Box) (indices : List ℕ)
    → used_indices width b ≡ some indices
    → length indices ≡ width_used b * height_used b
unfolding used_indices
used_size width b indices e =
    elim (Bool-cases (ltb (max_recipe_width * max_recipe_height) (width_used b * height_used b))) [
      | inl t ↦ absurd (none-ne-some indices (rw t at e))
      | inr t ↦
          ap length (sym (some-injective _ indices (rw t at e)))
          ∙ length-box_indices width b.min_x (height_used b) b.min_y (width_used b)
    ]

-- The sizes of the rectangle fit in a byte.
small_box :
    (width height : ℕ) (b : Box)
    → Within width height b
    → width ≤ 3
    → height ≤ 3
    → (u8 (width_used b) ≡ width_used b) × (u8 (height_used b) ≡ height_used b)
unfolding width_used height_used
small_box width height b v wide high = (ground (arith, v.high_y), ground (arith, v.high_x))

module _ (recipes : List Recipe) (v : All IsRecipe recipes) where
  match_indices-init :
      (b : Box) (slots : List Slot) (indices : List ℕ)
      → length indices ≡ width_used b * height_used b
      → u8 (width_used b) ≡ width_used b
      → u8 (height_used b) ≡ height_used b
      → match_indices (init_recipes recipes) b slots indices ≡ (
          if in_range slots indices
          then find_match recipes (width_used b) (height_used b) slots indices empty_slot
          else none)
  unfolding match_indices init_recipes
  match_indices-init b slots indices size rows columns = elim (input_hash-cases slots indices) [
    | inl (out, none_read) ↦ rw (out, none_read, match_indices) refl
    | inr (inside, all_in, (k, read)) ↦
        rw (all_in, read, match_indices)
          (looked_up (width_used b) (height_used b) k slots indices size inside read _ _ _
              empty_slot rows columns
            ∙ bucket_lem (width_used b) (height_used b) k slots indices size inside read recipes
                (λ h. none) empty_slot v)
  ]

  match_box-init :
      (width height : ℕ) (slots : List Slot) (b : Box)
      → Within width height b
      → width ≤ 3
      → height ≤ 3
      → match_box (init_recipes recipes) width slots b ≡ search_box recipes width slots b
  unfolding match_box search_box
  match_box-init width height slots b w wide high =
      let (rows, columns) = small_box width height b w wide high in
      elim (Bool-cases (leb (1 + b.max_y) b.min_y || leb (1 + b.max_x) b.min_x)) [
        | inl q ↦ rw q refl
        | inr q ↦ elim (Option-cases (used_indices width b)) [
          | inl g ↦ rw (q, g) refl
          | inr (indices, g) ↦
              rw (q, g)
                (match_indices-init b slots indices (used_size width b indices g) rows columns)
        ]
      ]

-- For recipes whose input fills their rectangle, matching through the hash buckets that `init` makes
-- gives what a search of all recipes in their order gives: the output of the last recipe that equals
-- the used rectangle of the grid in size and in the type and data of every slot, or an empty slot; or
-- both panic, where an index of the rectangle is out of range.
pub match_recipe-init :
    (recipes : List Recipe) (width height : ℕ) (slots : List Slot)
    → All IsRecipe recipes
    → match_recipe (init_recipes recipes) width height slots
      ≡ match_reference recipes width height slots
unfolding match_recipe match_reference
match_recipe-init recipes width height slots v =
    elim (Bool-cases (
      not (width * height == length slots)
      || ltb max_recipe_width width
      || ltb max_recipe_height height)) [
        | inl e ↦ rw e refl
        | inr e ↦ elim (Option-cases (used_box width height slots)) [
          | inl g ↦ rw (e, g) refl
          | inr (b, g) ↦
              rw (e, g)
                (match_box-init recipes v width height slots b
                  (used_box-Within width height slots b g) (ground arith) (ground arith))
        ]
      ]

found :
    (recipes : List Recipe) (w h : ℕ) (slots : List Slot) (indices : List ℕ) (out : Slot)
    → length indices ≡ w * h
    → All (λ i. i < length slots) indices
    → All IsRecipe recipes
    → (made : Slot) × (find_match recipes w h slots indices out ≡ some made)
unfolding find_match recipe_match
found [] w h slots indices out size inside v = (out, refl)
found (r ∷ recipes) w h slots indices out size inside v =
    elim (Option-cases (recipe_match r w h slots indices)) [
      | inr (hit, e) ↦
          let (made, g) =
            found recipes w h slots indices (if hit then r.output else out) size inside v.1 in
          (made, rw (e, find_match) g)
      | inl e ↦ elim (Bool-cases (not (w == r.width) || not (h == r.height))) [
        | inl q ↦
            let missed : recipe_match r w h slots indices ≡ some false =
              rw (q, recipe_match) refl in
            absurd cc
        | inr q ↦
            let wide : w ≡ r.width = ground arith in
            let high : h ≡ r.height = ground arith in
            let input_length : length r.input ≡ r.width * r.height = v.0 in
            let same : length r.input ≡ length indices = cc in
            absurd (never_faults r.input slots indices same inside (rw (q, recipe_match) at e))
      ]
    ]

in_range_of_below :
    (slots : List Slot) (indices : List ℕ)
    → All (λ i. i < length slots) indices
    → in_range slots indices ≡ true
unfolding in_range
in_range_of_below slots [] v = refl
in_range_of_below slots (i ∷ indices) v =
    let below : i < length slots = v.0 in
    let here : ltb i (length slots) ≡ true = ground arith in
    rw here (in_range_of_below slots indices v.1)

-- For recipes whose input fills their rectangle, matching through the buckets that `init` makes never
-- panics on a grid of at least one column and one row: no index of the scan, of the hash or of the
-- comparison is out of range, and the array of indices is long enough.
pub match_recipe-total :
    (recipes : List Recipe) (width height : ℕ) (slots : List Slot)
    → All IsRecipe recipes
    → 0 < width
    → 0 < height
    → (made : Slot) × (match_recipe (init_recipes recipes) width height slots ≡ some made)
unfolding match_reference search_box
match_recipe-total recipes width height slots v wide high =
    let e = match_recipe-init recipes width height slots v in
    elim (Bool-cases (
      not (width * height == length slots)
      || ltb max_recipe_width width
      || ltb max_recipe_height height)) [
        | inl t ↦ (empty_slot, e ∙ rw t refl)
        | inr t ↦
            let cells : width * height ≡ length slots = ground arith in
            let (b, g) = used_box-total width height slots cells in
            let w = used_box-Within width height slots b g in
            elim (Bool-cases (leb (1 + b.max_y) b.min_y || leb (1 + b.max_x) b.min_x)) [
              | inl q ↦ (empty_slot, e ∙ rw (t, g, q) refl)
              | inr q ↦
                  let indices = box_indices width b.min_x (height_used b) b.min_y (width_used b) in
                  let listed = used_indices-total width height b w (ground arith) (ground arith) in
                  let inside =
                    subst (λ n. All (λ i. i < n) indices) cells
                      (used_indices-below width height slots b indices g listed (ground arith)
                        (ground arith) wide high) in
                  let (made, m) =
                    found recipes (width_used b) (height_used b) slots indices empty_slot
                      (used_size width b indices listed) inside v in
                  (made, e ∙ rw (t, g, q, listed, in_range_of_below slots indices inside) m)
            ]
      ]
