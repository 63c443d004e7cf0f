-- ===== src/Subscription/Tests.antt =====
-- A step of one chunk to the east, and the theorem at it.
use chunkymonkey.Base.{◌^◌, ◌-◌, ◌≡◌, refl, arith, some, [], ◌∷◌}
use chunkymonkey.Coords.{ChunkXz}
use chunkymonkey.Subscription.{
  loop_values, in_square, difference_row, difference_rows, square_difference,
}
use chunkymonkey.Subscription.Squares.{Differs, square_difference-Differs}

abbrev from : ChunkXz
from = record { x = 2 ^ 32 - 1; z = 5 }

abbrev onto : ChunkXz
onto = record { x = 0; z = 5 }

new_column :
    square_difference onto from 1
    ≡ some (record { x = 1; z = 4 } ∷ record { x = 1; z = 5 } ∷ record { x = 1; z = 6 } ∷ [])
unfolding square_difference loop_values difference_rows difference_row in_square
new_column = refl

square_difference-Differs_example : Differs onto from 1 (square_difference onto from 1)
square_difference-Differs_example =
    square_difference-Differs onto from 1 (omega arith) (omega arith) (omega arith)
