-- ===== src/Subscription.antt =====
-- The chunks that a player is subscribed to: src/chunkymonkey/player/player_subscription.go,
-- squareDifference. Coordinates are int32 bit patterns; `none` is a loop that outlasts its fuel.
pub mod Squares
mod Tests
use chunkymonkey.Base.{
  ℕ, zero, suc, ◌+◌, ◌-◌, ◌*◌, ◌^◌, Bool, true, false, ◌&&◌, Option, none, some, List, [], ◌∷◌,
  ◌++◌, if◌then◌else◌,
}
use chunkymonkey.Base.Words.{u32, le32}
use chunkymonkey.Coords.{ChunkXz}

-- The values of `for x := first; x <= last; x++`.
unfoldable pub loop_values : ℕ → ℕ → ℕ → Option (List ℕ)
loop_values zero first last = none
loop_values (suc fuel) first last = elim (le32 first last) [
  | false ↦ some []
  | true ↦ elim (loop_values fuel (u32 (first + 1)) last) [
    | none ↦ none
    | some xs ↦ some (first ∷ xs)
  ]
]

abbrev pub lowest : ℕ → ℕ → ℕ
lowest c radius = u32 (c + 2 ^ 32 - radius)

abbrev pub highest : ℕ → ℕ → ℕ
highest c radius = u32 (c + radius)

-- The test of the inner loop: the location lies in the square of `center`.
unfoldable pub in_square : ChunkXz → ℕ → ChunkXz → Bool
in_square center radius loc =
    le32 (lowest center.x radius) loc.x
    && le32 loc.x (highest center.x radius)
    && le32 (lowest center.z radius) loc.z
    && le32 loc.z (highest center.z radius)

-- The inner loop, and the outer one.
unfoldable pub difference_row : ChunkXz → ℕ → ℕ → List ℕ → List ChunkXz
difference_row center_b radius x [] = []
difference_row center_b radius x (z ∷ zs) =
    let loc : ChunkXz = record { x = x; z = z } in
    let rest = difference_row center_b radius x zs in
    if in_square center_b radius loc then rest else loc ∷ rest

unfoldable pub difference_rows : ChunkXz → ℕ → List ℕ → List ℕ → List ChunkXz
difference_rows center_b radius [] zs = []
difference_rows center_b radius (x ∷ xs) zs =
    difference_row center_b radius x zs ++ difference_rows center_b radius xs zs

unfoldable pub square_difference : ChunkXz → ChunkXz → ℕ → Option (List ChunkXz)
square_difference center_a center_b radius =
    let fuel = radius * 2 + 2 in
    elim (loop_values fuel (lowest center_a.x radius) (highest center_a.x radius)) [
      | none ↦ none
      | some xs ↦ elim (loop_values fuel (lowest center_a.z radius) (highest center_a.z radius)) [
        | none ↦ none
        | some zs ↦ some (difference_rows center_b radius xs zs)
      ]
    ]
