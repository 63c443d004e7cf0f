-- ===== src/Inventory/Clicks.antt =====
-- Clicks on an inventory (src/chunkymonkey/gamerules/inventory.go: Click, TakeOnlyClick,
-- TakeOneItem).
use chunkymonkey.Base.{
  length-le_of_none, ℕ, ◌+◌, ◌^◌, ◌<◌, ◌≡◌, refl, ◌↔◌, Bool, true, false, ◌||◌, Option, none, some,
  List, arith, inl, inr, Option-cases, Bool-cases, ltb, ◌==◌, if◌then◌else◌, length, get_elem?,
  lt-length_of_get, length-set, set, All-get, All-set,
}
use chunkymonkey.Base.Words.{lt16}
use chunkymonkey.Slot.{Slot, ItemTypeMap, equals, add, add_whole, swap, split, add_one}
use chunkymonkey.Slot.Stock.{amount, IsStock, IsTable}
use chunkymonkey.Slot.Moves.{
  Conserves, add-Conserves, add_whole-Conserves, add_one-Conserves, swap-Conserves, split-Conserves,
}
use chunkymonkey.Inventory.{
  Inventory, Click, TxState, accepted, rejected, Update, notify, store, exchange, click,
  take_only_click,
}
use chunkymonkey.Inventory.Held.{held, held-set, AllStock}

pub slots-notify : (inv : Inventory) (us : List Update) → (notify inv us).slots ≡ inv.slots
unfolding notify
slots-notify inv us = ground arith

pub slots-store : (inv : Inventory) (i : ℕ) (s : Slot) → (store inv i s).slots ≡ set inv.slots i s
unfolding store
slots-store inv i s = slots-notify _ _

module _ (items : ItemTypeMap) (table : IsTable items) where
  moved-Conserves :
      (right_click : Bool) (s cur : Slot)
      → IsStock s
      → IsStock cur
      → Conserves s cur (if right_click then add_one items s cur else add items s cur)
  moved-Conserves true s cur v w = add_one-Conserves items s cur table v w
  moved-Conserves false s cur v w = add-Conserves items s cur table v w

  parted-Conserves :
      (right_click : Bool) (s cur : Slot)
      → IsStock s
      → IsStock cur
      → Conserves s cur (if right_click then split s cur else swap s cur)
  parted-Conserves true s cur v w = split-Conserves s cur v w
  parted-Conserves false s cur v w = swap-Conserves s cur v w

  then_swap :
      (s cur : Slot) (r : Slot × Slot × Bool)
      → Conserves s cur r
      → Conserves s cur (if r.2 then r else swap r.0 r.1)
  then_swap s cur (a, b, true) h = h
  then_swap s cur (a, b, false) h =
      let k = swap-Conserves a b h.left h.right in
      record {
        total = λ t d. omega (arith, h.total t d, k.total t d);
        left = k.left;
        right = k.right;
      }

  pub exchange-Conserves :
      (right_click : Bool) (s cur : Slot)
      → IsStock s
      → IsStock cur
      → Conserves s cur (exchange items right_click s cur)
  unfolding exchange
  exchange-Conserves right_click s cur v w = elim (Bool-cases (cur.count == 0)) [
    | inl e ↦ rw e (parted-Conserves right_click s cur v w)
    | inr e ↦ rw e (then_swap s cur _ (moved-Conserves right_click s cur v w))
  ]

-- A click leaves the items of the slots and the cursor together as they were, and all of them well
-- formed.
pub record Keeps (slots : List Slot) (cur : Slot) (slots' : List Slot) (cur' : Slot) : Type 0 where
  pub total : (t d : ℕ) → held t d slots' + amount t d cur' ≡ held t d slots + amount t d cur
  pub size : length slots' ≡ length slots
  pub stock : AllStock slots'
  pub hand : IsStock cur'

Keeps-refl :
    (slots : List Slot) (cur : Slot) → AllStock slots → IsStock cur → Keeps slots cur slots cur
Keeps-refl slots cur v w = record { total = λ t d. refl; size = refl; stock = v; hand = w }

store-Keeps :
    (inv : Inventory) (i : ℕ) (s s' cur cur' : Slot)
    → AllStock inv.slots
    → get_elem? inv.slots i ≡ some s
    → ((t d : ℕ) → amount t d s' + amount t d cur' ≡ amount t d s + amount t d cur)
    → IsStock s'
    → IsStock cur'
    → Keeps inv.slots cur (store inv i s').slots cur'
store-Keeps inv i s s' cur cur' v e same vs vc = rw (slots-store inv i s') (record {
  total = λ t d. omega (arith, held-set t d inv.slots i s s' e, same t d);
  size = length-set inv.slots i s';
  stock = All-set IsStock inv.slots i s' v vs;
  hand = vc;
})

-- The slot identifier lies outside of what the first test lets through.
abbrev pub is_refused : Inventory → Click → Bool
is_refused inv c = lt16 c.slot_id 0 || ltb (length inv.slots) c.slot_id

-- The four outcomes of a click, each with the tests that lead to it.
module _ {ℓ} (P : Option (Inventory × Click × TxState) → Type ℓ) (items : ItemTypeMap)
    (inv : Inventory) (c : Click)
    (out_of_range : is_refused inv c ≡ true → P (some (inv, c, rejected)))
    (fault : is_refused inv c ≡ false → get_elem? inv.slots c.slot_id ≡ none → P none)
    (unexpected : (s : Slot)
      → get_elem? inv.slots c.slot_id ≡ some s
      → equals c.expected_slot s ≡ false
      → P (some (inv, c, rejected))) where
  pub click_cases :
      ((s : Slot)
        → get_elem? inv.slots c.slot_id ≡ some s
        → equals c.expected_slot s ≡ true
        → let r = exchange items c.right_click s c.cursor in
          P (some (store inv c.slot_id r.0, record c { cursor = r.1 }, accepted)))
      → P (click items inv c)
  unfolding click
  click_cases act = elim (Bool-cases (is_refused inv c)) [
    | inl e ↦ rw e (out_of_range e)
    | inr e ↦ elim (Option-cases (get_elem? inv.slots c.slot_id)) [
      | inl g ↦ rw (e, g) (fault e g)
      | inr (s, g) ↦ elim (Bool-cases (equals c.expected_slot s)) [
        | inl q ↦ rw (e, g, q) (act s g q)
        | inr q ↦ rw (e, g, q) (unexpected s g q)
      ]
    ]
  ]

  pub take_only_click_cases :
      ((s : Slot)
        → get_elem? inv.slots c.slot_id ≡ some s
        → equals c.expected_slot s ≡ true
        → let r = add_whole items c.cursor s in
          P (some (store inv c.slot_id r.1, record c { cursor = r.0 }, accepted)))
      → P (take_only_click items inv c)
  unfolding take_only_click
  take_only_click_cases act = elim (Bool-cases (is_refused inv c)) [
    | inl e ↦ rw e (out_of_range e)
    | inr e ↦ elim (Option-cases (get_elem? inv.slots c.slot_id)) [
      | inl g ↦ rw (e, g) (fault e g)
      | inr (s, g) ↦ elim (Bool-cases (equals c.expected_slot s)) [
        | inl q ↦ rw (e, g, q) (act s g q)
        | inr q ↦ rw (e, g, q) (unexpected s g q)
      ]
    ]
  ]

-- What a click returns, where it returns.
abbrev pub Acts : Inventory → Click → Option (Inventory × Click × TxState) → Type 0
Acts inv c none = Unit
Acts inv c (some (inv', c', tx)) = Keeps inv.slots c.cursor inv'.slots c'.cursor

module _ (items : ItemTypeMap) (inv : Inventory) (c : Click) (table : IsTable items) where
  -- With well-formed slots and a well-formed cursor, a click on any slot that does not panic keeps the
  -- number of items of every type and data value on the slots and the cursor together, the number of
  -- slots, and the well-formedness of both, whether it is accepted or rejected.
  pub click-Acts : AllStock inv.slots → IsStock c.cursor → Acts inv c (click items inv c)
  click-Acts v w =
      click_cases (Acts inv c) items inv c (λ _. unmoved) (λ _ _. tt) (λ _ _ _. unmoved)
        λ s g _.
          let k =
            exchange-Conserves items table c.right_click s c.cursor
              (All-get IsStock inv.slots c.slot_id s v g) w in
          store-Keeps inv c.slot_id s _ c.cursor _ v g k.total k.left k.right
    where
      unmoved : Keeps inv.slots c.cursor inv.slots c.cursor
      unmoved = Keeps-refl inv.slots c.cursor v w

  -- The same of a click that may only take: from well-formed slots and cursor, where it does not panic,
  -- no item is lost or made up, the number of slots is kept, and all stays well formed.
  pub take_only_click-Acts :
      AllStock inv.slots → IsStock c.cursor → Acts inv c (take_only_click items inv c)
  take_only_click-Acts v w =
      take_only_click_cases (Acts inv c) items inv c (λ _. unmoved) (λ _ _. tt) (λ _ _ _. unmoved)
        λ s g _.
          let k =
            add_whole-Conserves items c.cursor s table w
              (All-get IsStock inv.slots c.slot_id s v g) in
          store-Keeps inv c.slot_id s _ c.cursor _ v g (λ t d. omega (arith, k.total t d)) k.right
            k.left
    where
      unmoved : Keeps inv.slots c.cursor inv.slots c.cursor
      unmoved = Keeps-refl inv.slots c.cursor v w

-- A click panics exactly when its slot identifier, a 16-bit pattern, is the number of slots, for an
-- inventory of fewer than 2 ^ 15 slots: the test `click.SlotId > len(inv.slots)` lets one identifier
-- too many through.
pub click_faults :
    (items : ItemTypeMap) (inv : Inventory) (c : Click)
    → c.slot_id < 2 ^ 16
    → length inv.slots < 2 ^ 15
    → (click items inv c ≡ none) ↔ (c.slot_id ≡ length inv.slots)
click_faults items inv c range short =
    click_cases (λ r. (r ≡ none) ↔ (c.slot_id ≡ length inv.slots)) items inv c
      (λ e. (λ h. cc, λ h. absurd (ground arith)))
      (λ e g. (λ h. ground (arith, length-le_of_none inv.slots c.slot_id g), λ h. refl))
      (λ s g e. (λ h. cc, λ h. absurd (omega (arith, lt-length_of_get inv.slots c.slot_id s g))))
      λ s g e. (λ h. cc, λ h. absurd (omega (arith, lt-length_of_get inv.slots c.slot_id s g)))
