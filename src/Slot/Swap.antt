-- ===== src/Slot/Swap.antt =====
-- `Slot.Swap` (src/chunkymonkey/gamerules/slot.go) exchanges the two slots.
use chunkymonkey.Base.{ℕ, ◌≡◌, refl, not, arith, bit_xor}
use chunkymonkey.Base.Bits.{xor_recover, xor_comm}
use chunkymonkey.Slot.{Slot, equals, is_same_type, xor_swap, swap}

xor_swap_lem : (a b : ℕ) → xor_swap a b ≡ (b, a)
unfolding xor_swap
xor_swap_lem a b =
    rw (xor_recover a b, xor_comm (bit_xor a b) a, xor_comm a b, xor_recover b a) refl

-- Swapping puts each slot's whole contents into the other, and reports a change exactly if the
-- slots differed in some field. It needs no bound on the fields.
pub swap_lem : (s src : Slot) → swap s src ≡ (src, s, not (equals s src))
unfolding swap equals is_same_type
swap_lem s src = ground (
  arith,
  xor_swap_lem s.item_type_id src.item_type_id,
  xor_swap_lem s.count src.count,
  xor_swap_lem s.item_data src.item_data,
)
