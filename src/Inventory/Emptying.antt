-- ===== src/Inventory/Emptying.antt =====
-- Emptying an inventory (src/chunkymonkey/gamerules/inventory.go: TakeAllItems).
use chunkymonkey.Base.{
  ℕ, ◌+◌, ◌<◌, ◌≡◌, refl, Option, none, some, List, [], ◌∷◌, arith, inl, inr, Bool-cases, ◌==◌,
  length, All,
}
use chunkymonkey.Base.Words.{lt8}
use chunkymonkey.Slot.{Slot, empty_slot}
use chunkymonkey.Slot.Swap.{swap_lem}
use chunkymonkey.Inventory.{Inventory, take_all_loop, take_all_items}
use chunkymonkey.Inventory.Held.{held, AllStock}
use chunkymonkey.Inventory.Clicks.{slots-notify}

-- What the loop leaves in the slots, and what it takes out of them.
record Emptied (ss ss' items : List Slot) : Type 0 where
  same_size : length ss' ≡ length ss
  nothing_left : All (λ s. s.count ≡ 0) ss'
  all_taken : (t d : ℕ) → held t d items ≡ held t d ss
  no_empty_stack : All (λ s. 0 < s.count) items

loop-Emptied :
    (i : ℕ) (ss : List Slot) → AllStock ss → let r = take_all_loop i ss in Emptied ss r.0 r.1
unfolding take_all_loop
loop-Emptied i [] v = record {
  same_size = refl;
  nothing_left = tt;
  all_taken = λ t d. refl;
  no_empty_stack = tt;
}
loop-Emptied i (s ∷ ss) v =
    let rest = loop-Emptied (i + 1) ss v.1 in
    elim (Bool-cases (lt8 0 s.count)) [
      | inl e ↦
          rw (swap_lem empty_slot s, e)
            (record {
              same_size = omega (arith, rest.same_size);
              nothing_left = (refl, rest.nothing_left);
              all_taken = λ t d. omega (arith, rest.all_taken t d);
              no_empty_stack = (ground arith, rest.no_empty_stack);
            })
      | inr e ↦
          rw (swap_lem empty_slot s, e)
            (record {
              same_size = omega (arith, rest.same_size);
              nothing_left = (ground arith, rest.nothing_left);
              all_taken = λ t d. ground (arith, rest.all_taken t d);
              no_empty_stack = rest.no_empty_stack;
            })
    ]

-- What `TakeAllItems` returns, and that it panics on an inventory of no slots.
abbrev pub TakesAll : Inventory → Option (Inventory × List Slot) → Type 0
TakesAll inv none = inv.slots ≡ []
TakesAll inv (some (inv', items)) =
    All (λ s. s.count ≡ 0) inv'.slots
    × (length inv'.slots ≡ length inv.slots)
    × ((t d : ℕ) → held t d items ≡ held t d inv.slots)
    × All (λ s. 0 < s.count) items

length_zero : (ss : List Slot) → length ss ≡ 0 → ss ≡ []
length_zero [] h = refl
length_zero (s ∷ ss) h = absurd (omega arith)

-- From well-formed slots, `TakeAllItems` either panics, and then there are no slots, or it leaves as
-- many slots as before with a count of 0 in each, and returns exactly the items that were in them, of
-- every type and data value, with no empty stack among them.
pub take_all_items-TakesAll :
    (inv : Inventory) → AllStock inv.slots → TakesAll inv (take_all_items inv)
unfolding take_all_items
take_all_items-TakesAll inv v = elim (Bool-cases (length inv.slots == 0)) [
  | inl e ↦ rw e (length_zero inv.slots (ground arith))
  | inr e ↦
      let done = loop-Emptied 0 inv.slots v in
      rw (e, slots-notify) (done.nothing_left, done.same_size, done.all_taken, done.no_empty_stack)
]
