-- ===== src/Furnace/Steps.antt =====
-- The furnace's slots and counters under each part of a tick (inv_furnace.go).
use chunkymonkey.Base.{
  ℕ, ◌<◌, ◌≡◌, refl, ap, ◌∙◌, ◌≢◌, List, arith, length, set, get_elem?-set_self, get_elem?-set_ne,
}
use chunkymonkey.Slot.{Slot}
use chunkymonkey.Inventory.{notify}
use chunkymonkey.Inventory.Clicks.{slots-store}
use chunkymonkey.Furnace.{
  FurnaceInventory, slot_of, slot_at, put, send_fuel, send_reaction, send_progress_updates,
}

pub slots-put :
    (f : FurnaceInventory) (i : ℕ) (s : Slot)
    → (put f i s).inventory.slots ≡ set f.inventory.slots i s
unfolding put
slots-put f i s = slots-store f.inventory i s

slot_of-set_self : (xs : List Slot) (i : ℕ) (s : Slot) → i < length xs → slot_of (set xs i s) i ≡ s
slot_of-set_self xs i s h = rw (get_elem?-set_self xs i s h, slot_of) refl

slot_of-set_ne :
    (xs : List Slot) (i j : ℕ) (s : Slot) → i ≢ j → slot_of (set xs i s) j ≡ slot_of xs j
slot_of-set_ne xs i j s h = rw (get_elem?-set_ne xs i j s h, slot_of) refl

pub slot_at-put_self :
    (f : FurnaceInventory) (i : ℕ) (s : Slot)
    → i < length f.inventory.slots
    → slot_at (put f i s) i ≡ s
slot_at-put_self f i s h =
    ap (λ xs. slot_of xs i) (slots-put f i s) ∙ slot_of-set_self f.inventory.slots i s h

pub slot_at-put_ne :
    (f : FurnaceInventory) (i j : ℕ) (s : Slot) → i ≢ j → slot_at (put f i s) j ≡ slot_at f j
slot_at-put_ne f i j s h =
    ap (λ xs. slot_of xs j) (slots-put f i s) ∙ slot_of-set_ne f.inventory.slots i j s h

-- What progress updates leave alone.
pub record SameFurnace (f g : FurnaceInventory) : Type 0 where
  pub slots : g.inventory.slots ≡ f.inventory.slots
  pub burn_time_max : g.burn_time_max ≡ f.burn_time_max
  pub burn_time : g.burn_time ≡ f.burn_time
  pub cook_time : g.cook_time ≡ f.cook_time

pub send_progress_updates-Same : (f : FurnaceInventory) → SameFurnace f (send_progress_updates f)
unfolding send_progress_updates send_fuel send_reaction notify
send_progress_updates-Same f = ground arith
