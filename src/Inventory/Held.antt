-- ===== src/Inventory/Held.antt =====
-- The items in a list of slots.
use chunkymonkey.Base.{ℕ, zero, suc, ◌+◌, ◌≡◌, some, List, [], ◌∷◌, arith, get_elem?, set, All}
use chunkymonkey.Slot.{Slot}
use chunkymonkey.Slot.Stock.{amount, IsStock}

-- The number of items of one type and data value.
abbrev pub held : ℕ → ℕ → List Slot → ℕ
held t d [] = 0
held t d (s ∷ ss) = amount t d s + held t d ss

-- Writing a slot replaces what it held.
pub held-set :
    (t d : ℕ) (ss : List Slot) (i : ℕ) (s s' : Slot)
    → get_elem? ss i ≡ some s
    → held t d (set ss i s') + amount t d s ≡ held t d ss + amount t d s'
held-set t d [] i s s' e = cc
held-set t d (x ∷ ss) zero s s' e = ground arith
held-set t d (x ∷ ss) (suc i) s s' e = omega (arith, held-set t d ss i s s' e)

abbrev pub AllStock : List Slot → Type 0
AllStock = All IsStock
