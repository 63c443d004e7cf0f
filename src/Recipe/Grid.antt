-- ===== src/Recipe/Grid.antt =====
-- The used rectangle of a crafting grid and its indices (src/chunkymonkey/gamerules/recipe.go: Match).
use chunkymonkey.Base.{
  ltb, some, Option-cases, get_elem?, length-le_of_none, subst, false, ◌-◌, ℕ, zero, suc, ◌+◌, ◌*◌,
  ◌≤◌, ◌<◌, ◌≡◌, refl, ◌∙◌, arith, List, ◌⊎◌, length, length-append, All, All-append, inl, inr,
  Bool-cases,
}
use native.Mathlib.Nat.{mul-le-mul_right, mul-le-mul, mul_comm}
use mathlib.Core.Option.{some-injective, none-ne-some}
use chunkymonkey.Base.Words.{lt8}
use chunkymonkey.Slot.{Slot}
use chunkymonkey.Recipe.{
  Box, widen, scan_row, scan_rows, used_box, row_indices, box_indices, width_used, height_used,
  used_indices,
}

-- The rectangle stays inside the grid.
pub record Within (width height : ℕ) (b : Box) : Type 0 where
  pub low_x : b.min_x ≤ width
  pub low_y : b.min_y ≤ height
  pub high_x : (b.max_x < width) ⊎ (b.max_x ≡ 0)
  pub high_y : (b.max_y < height) ⊎ (b.max_y ≡ 0)

widen-Within :
    (width height : ℕ) (s : Slot) (x y : ℕ) (b : Box)
    → x < width
    → y < height
    → Within width height b
    → Within width height (widen s x y b)
unfolding widen
widen-Within width height s x y b hx hy v = elim (Bool-cases (lt8 0 s.count)) [
  | inr e ↦ rw e v
  | inl e ↦ rw e (record {
    low_x = ground (arith, v.low_x);
    low_y = ground (arith, v.low_y);
    high_x = ground (arith, v.high_x);
    high_y = ground (arith, v.high_y);
  })
]

scan_row-Within :
    (width height : ℕ) (slots : List Slot) (n x y i : ℕ) (b b' : Box)
    → x + n ≡ width
    → y < height
    → Within width height b
    → scan_row slots n x y i b ≡ some b'
    → Within width height b'
unfolding scan_row
scan_row-Within width height slots zero x y i b b' e hy v r =
    subst (Within width height) (some-injective b b' r) v
scan_row-Within width height slots (suc n) x y i b b' e hy v r =
    elim (Option-cases (get_elem? slots i)) [
      | inl g ↦ absurd (none-ne-some b' (rw (g, scan_row) at r))
      | inr (s, g) ↦
          scan_row-Within width height slots n (x + 1) y (i + 1) _ b' (omega arith) hy
            (widen-Within width height s x y b (omega arith) hy v) (rw (g, scan_row) at r)
    ]

scan_rows-Within :
    (width height : ℕ) (slots : List Slot) (n y i : ℕ) (b b' : Box)
    → y + n ≡ height
    → Within width height b
    → scan_rows slots width n y i b ≡ some b'
    → Within width height b'
unfolding scan_rows
scan_rows-Within width height slots zero y i b b' e v r =
    subst (Within width height) (some-injective b b' r) v
scan_rows-Within width height slots (suc n) y i b b' e v r =
    elim (Option-cases (scan_row slots width 0 y i b)) [
      | inl g ↦ absurd (none-ne-some b' (rw (g, scan_rows) at r))
      | inr (c, g) ↦
          scan_rows-Within width height slots n (y + 1) (i + width) c b' (omega arith)
            (scan_row-Within width height slots width 0 y i b c (omega arith) (omega arith) v g)
            (rw (g, scan_rows) at r)
    ]

pub used_box-Within :
    (width height : ℕ) (slots : List Slot) (b : Box)
    → used_box width height slots ≡ some b
    → Within width height b
unfolding used_box
used_box-Within width height slots b r =
    scan_rows-Within width height slots height 0 0 _ b (omega arith)
      (record { low_x = omega arith; low_y = omega arith; high_x = inr refl; high_y = inr refl }) r

suc_mul : (n c : ℕ) → suc n * c ≡ c + n * c
suc_mul n c = omega arith

cell-lt : (width height y x : ℕ) → x < width → y < height → y * width + x < width * height
cell-lt width height y x hx hy =
    omega (arith, mul-le-mul_right width hy, suc_mul y width, mul_comm height width)

length-row_indices : (width y x n : ℕ) → length (row_indices width y x n) ≡ n
unfolding row_indices
length-row_indices width y x zero = refl
length-row_indices width y x (suc n) = omega (arith, length-row_indices width y (x + 1) n)

pub length-box_indices :
    (width x columns y n : ℕ) → length (box_indices width x columns y n) ≡ n * columns
unfolding box_indices
length-box_indices width x columns y zero = omega arith
length-box_indices width x columns y (suc n) =
    length-append (row_indices width y x columns) _
    ∙ omega (
      arith,
      length-row_indices width y x columns,
      length-box_indices width x columns (y + 1) n,
      suc_mul n columns,
    )

row_indices-below :
    (width height y x n : ℕ)
    → x + n ≤ width
    → y < height
    → All (λ i. i < width * height) (row_indices width y x n)
unfolding row_indices
row_indices-below width height y x zero h k = tt
row_indices-below width height y x (suc n) h k = (
  cell-lt width height y x (omega arith) k,
  row_indices-below width height y (x + 1) n (omega arith) k,
)

box_indices-below :
    (width height x columns y n : ℕ)
    → x + columns ≤ width
    → y + n ≤ height
    → All (λ i. i < width * height) (box_indices width x columns y n)
unfolding box_indices
box_indices-below width height x columns y zero h k = tt
box_indices-below width height x columns y (suc n) h k =
    All-append _ _ _ (row_indices-below width height y x columns h (omega arith))
      (box_indices-below width height x columns (y + 1) n h (omega arith))

-- The scan reads no slot past the end, if there are as many slots as the grid has cells.
scan_row-total :
    (slots : List Slot) (n x y i : ℕ) (b : Box)
    → i + n ≤ length slots
    → (b' : Box) × (scan_row slots n x y i b ≡ some b')
unfolding scan_row
scan_row-total slots zero x y i b h = (b, refl)
scan_row-total slots (suc n) x y i b h = elim (Option-cases (get_elem? slots i)) [
  | inl g ↦ absurd (omega (arith, length-le_of_none slots i g))
  | inr (s, g) ↦
      let (b', r) = scan_row-total slots n (x + 1) y (i + 1) (widen s x y b) (omega arith) in
      (b', rw (g, scan_row) r)
]

scan_rows-total :
    (slots : List Slot) (width n y i : ℕ) (b : Box)
    → i + n * width ≤ length slots
    → (b' : Box) × (scan_rows slots width n y i b ≡ some b')
unfolding scan_rows
scan_rows-total slots width zero y i b h = (b, refl)
scan_rows-total slots width (suc n) y i b h =
    let (c, g) = scan_row-total slots width 0 y i b (omega (arith, suc_mul n width)) in
    let (b', r) =
      scan_rows-total slots width n (y + 1) (i + width) c (omega (arith, suc_mul n width)) in
    (b', rw (g, scan_rows) r)

pub used_box-total :
    (width height : ℕ) (slots : List Slot)
    → width * height ≡ length slots
    → (b : Box) × (used_box width height slots ≡ some b)
unfolding used_box
used_box-total width height slots e =
    scan_rows-total slots width height 0 0 _ (omega (arith, mul_comm height width))

-- The rectangle of a grid of three by three at most fits in the array of indices.
pub used_indices-total :
    (width height : ℕ) (b : Box)
    → Within width height b
    → width ≤ 3
    → height ≤ 3
    → used_indices width b ≡ some (box_indices width b.min_x (height_used b) b.min_y (width_used b))
unfolding used_indices width_used height_used
used_indices-total width height b v wide high =
    let rows : 1 + b.max_y - b.min_y ≤ 3 = ground (arith, v.high_y) in
    let columns : 1 + b.max_x - b.min_x ≤ 3 = ground (arith, v.high_x) in
    let few = mul-le-mul rows columns in
    let fits : ltb 9 ((1 + b.max_y - b.min_y) * (1 + b.max_x - b.min_x)) ≡ false = ground arith in
    rw fits refl

-- Every index that a match reads lies inside the grid, if the grid has a column and a row and the
-- rectangle is not empty.
pub used_indices-below :
    (width height : ℕ) (slots : List Slot) (b : Box) (indices : List ℕ)
    → used_box width height slots ≡ some b
    → used_indices width b ≡ some indices
    → b.min_y < 1 + b.max_y
    → b.min_x < 1 + b.max_x
    → 0 < width
    → 0 < height
    → All (λ i. i < width * height) indices
unfolding used_indices height_used width_used
used_indices-below width height slots b indices r e some_row some_column wide high =
    let v = used_box-Within width height slots b r in
    let below =
      box_indices-below width height b.min_x (1 + b.max_x - b.min_x) b.min_y (1 + b.max_y - b.min_y)
        (ground (arith, v.high_x)) (ground (arith, v.high_y)) in
    elim (Bool-cases (ltb 9 ((1 + b.max_y - b.min_y) * (1 + b.max_x - b.min_x)))) [
      | inl t ↦ absurd (none-ne-some indices (rw t at e))
      | inr t ↦ subst (All (λ i. i < width * height)) (some-injective _ indices (rw t at e)) below
    ]
