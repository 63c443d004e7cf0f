-- ===== src/Inventory/Mirror.antt =====
-- What a subscriber is told. A client that applies each slot update to its own copy of the slots
-- sees the slots as they are (src/chunkymonkey/gamerules/inventory.go: slotUpdate and its callers).
use chunkymonkey.Base.{
  ℕ, ◌+◌, ◌^◌, ◌≤◌, ◌≡◌, refl, ap, sym, ◌∙◌, true, false, Option, none, some, List, [], ◌∷◌, ◌++◌,
  arith, inl, inr, Bool-cases, ◌==◌, length, set, length-append,
}
use mathlib.Core.List.{append_assoc}
use chunkymonkey.Base.Words.{le8, lt8, u16}
use chunkymonkey.Slot.Stock.{IsStock, IsTable}
use chunkymonkey.Slot.Pour.{pour, add_lem}
use chunkymonkey.Slot.Moves.{add-Conserves}
use chunkymonkey.Inventory.Held.{AllStock}
use chunkymonkey.Slot.{Slot, ItemTypeMap, add, empty_slot, swap}
use chunkymonkey.Inventory.{
  Inventory, Click, TxState, Update, slot_update, progress_update, notify, store, click,
  take_only_click, put_loop, put_item, take_all_loop, take_all_items,
}
use chunkymonkey.Inventory.Clicks.{click_cases, take_only_click_cases}

-- The copy that a client makes of the slots from what it is told.
abbrev pub mirror : List Slot → List Update → List Slot
mirror ss [] = ss
mirror ss (slot_update s i ∷ us) = mirror (set ss i s) us
mirror ss (progress_update bar value ∷ us) = mirror ss us

mirror-append :
    (ss : List Slot) (us vs : List Update) → mirror ss (us ++ vs) ≡ mirror (mirror ss us) vs
mirror-append ss [] vs = refl
mirror-append ss (slot_update s i ∷ us) vs = mirror-append (set ss i s) us vs
mirror-append ss (progress_update bar value ∷ us) vs = mirror-append ss us vs

-- The client's copy, begun from `base`, shows the slots. Without a subscriber there is no client.
abbrev pub IsSynced : List Slot → Inventory → Type 0
IsSynced base inv = inv.has_subscriber ≡ true → mirror base inv.sent ≡ inv.slots

pub notify-IsSynced :
    (base ss : List Slot) (inv : Inventory) (us : List Update)
    → IsSynced base inv
    → mirror inv.slots us ≡ ss
    → IsSynced base (notify (record inv { slots = ss }) us)
unfolding notify
notify-IsSynced base ss inv us h e = elim (Bool-cases inv.has_subscriber) [
  | inl on ↦ rw on (λ _. mirror-append base inv.sent us ∙ ap (λ xs. mirror xs us) (h on) ∙ e)
  | inr off ↦ rw off (λ on. cc)
]

store-IsSynced :
    (base : List Slot) (inv : Inventory) (i : ℕ) (s : Slot)
    → IsSynced base inv
    → IsSynced base (store inv i s)
unfolding store
store-IsSynced base inv i s h = notify-IsSynced base _ inv _ h refl

-- The client's copy after a click, where the click does not panic.
abbrev pub SyncedAfter : List Slot → Option (Inventory × Click × TxState) → Type 0
SyncedAfter base none = Unit
SyncedAfter base (some (inv, c, tx)) = IsSynced base inv

-- Where the updates sent so far reproduce the slots for a subscriber, they do so again after a click
-- and after a click that may only take, on every branch that does not panic.
pub click-IsSynced :
    (items : ItemTypeMap) (base : List Slot) (inv : Inventory) (c : Click)
    → IsSynced base inv
    → SyncedAfter base (click items inv c) × SyncedAfter base (take_only_click items inv c)
click-IsSynced items base inv c h = (
  click_cases (SyncedAfter base) items inv c (λ _. h) (λ _ _. tt) (λ _ _ _. h)
      (λ s _ _. store-IsSynced base inv c.slot_id _ h),
  take_only_click_cases (SyncedAfter base) items inv c (λ _. h) (λ _ _. tt) (λ _ _ _. h)
      (λ s _ _. store-IsSynced base inv c.slot_id _ h),
)

set_middle : (pre ss : List Slot) (s v : Slot) → set (pre ++ s ∷ ss) (length pre) v ≡ pre ++ v ∷ ss
set_middle [] ss s v = refl
set_middle (x ∷ pre) ss s v = ap (λ xs. x ∷ xs) (set_middle pre ss s v)

pour_unchanged : (s src : Slot) (n : ℕ) → (pour s src n).2 ≡ false → (pour s src n).0 ≡ s
pour_unchanged s src n h = ground arith

shift_one : (pre ss : List Slot) (s : Slot) → (pre ++ s ∷ []) ++ ss ≡ pre ++ s ∷ ss
shift_one pre ss s = append_assoc pre (s ∷ []) ss

length-snoc : (pre : List Slot) (s : Slot) → length (pre ++ s ∷ []) ≡ length pre + 1
length-snoc pre s = omega (arith, length-append pre (s ∷ []))

-- The slot behind `pre` has an int16 identifier that does not wrap.
set_next :
    (pre ss : List Slot) (s v : Slot)
    → length pre + length (s ∷ ss) ≤ 2 ^ 15
    → set (pre ++ s ∷ ss) (u16 (length pre)) v ≡ pre ++ v ∷ ss
set_next pre ss s v short =
    let same : u16 (length pre) ≡ length pre = omega arith in rw same (set_middle pre ss s v)

next_short :
    (pre ss : List Slot) (s v : Slot)
    → length pre + length (s ∷ ss) ≤ 2 ^ 15
    → length (pre ++ v ∷ []) + length ss ≤ 2 ^ 15
next_short pre ss s v short = omega (arith, length-snoc pre v)

module _ (items : ItemTypeMap) (table : IsTable items) where
  add_unchanged :
      (s item : Slot)
      → IsStock s
      → IsStock item
      → (add items s item).2 ≡ false
      → (add items s item).0 ≡ s
  add_unchanged s item v w h =
      rw (add_lem items s item table v w)
        (pour_unchanged s item _ (rw (add_lem items s item table v w) at h))

  -- A loop that goes through the slots from the first on: the updates of its tail, seen behind the
  -- slots that are done.
  put_loop-mirror :
      (pre ss : List Slot) (item : Slot)
      → AllStock ss
      → IsStock item
      → length pre + length ss ≤ 2 ^ 15
      → let r = put_loop items (length pre) ss item in mirror (pre ++ ss) r.2 ≡ pre ++ r.0
  unfolding put_loop
  put_loop-mirror pre [] item v w short = refl
  put_loop-mirror pre (s ∷ ss) item v w short =
      let r = add items s item in
      let one = add-Conserves items s item table v.0 w in
      let rest : mirror (pre ++ r.0 ∷ ss) (put_loop items (length pre + 1) ss r.1).2
          ≡ pre ++ r.0 ∷ (put_loop items (length pre + 1) ss r.1).0 =
        rw (length-snoc, shift_one, shift_one) at
          (put_loop-mirror (pre ++ r.0 ∷ []) ss r.1 v.1 one.right
            (next_short pre ss s r.0 short)) in
      elim (Bool-cases (le8 item.count 0)) [
        | inl e ↦ rw e refl
        | inr e ↦ elim (Bool-cases r.2) [
          | inl changed ↦
              rw (e, changed)
                (ap (λ xs. mirror xs (put_loop items (length pre + 1) ss r.1).2)
                    (set_next pre ss s r.0 short)
                  ∙ rest)
          | inr same ↦
              rw (e, same)
                (ap (λ x. mirror (pre ++ x ∷ ss) (put_loop items (length pre + 1) ss r.1).2)
                    (sym (add_unchanged s item v.0 w same))
                  ∙ rest)
        ]
      ]

  -- Where the updates sent so far reproduce the slots for a subscriber, they do so again after a
  -- well-formed item is put away in well-formed slots, of which there are at most 2 ^ 15.
  pub put_item-IsSynced :
      (base : List Slot) (inv : Inventory) (item : Slot)
      → AllStock inv.slots
      → IsStock item
      → length inv.slots ≤ 2 ^ 15
      → IsSynced base inv
      → IsSynced base (put_item items inv item).0
  unfolding put_item
  put_item-IsSynced base inv item v w short h =
      notify-IsSynced base _ inv _ h (put_loop-mirror [] inv.slots item v w (omega arith))

take_all_loop-mirror :
    (pre ss : List Slot)
    → length pre + length ss ≤ 2 ^ 15
    → let r = take_all_loop (length pre) ss in mirror (pre ++ ss) r.2 ≡ pre ++ r.0
unfolding take_all_loop
take_all_loop-mirror pre [] short = refl
take_all_loop-mirror pre (s ∷ ss) short =
    let r = swap empty_slot s in
    let taken : mirror (pre ++ r.1 ∷ ss) (take_all_loop (length pre + 1) ss).2
        ≡ pre ++ r.1 ∷ (take_all_loop (length pre + 1) ss).0 =
      rw (length-snoc, shift_one, shift_one) at
        (take_all_loop-mirror (pre ++ r.1 ∷ []) ss (next_short pre ss s r.1 short)) in
    let kept : mirror (pre ++ s ∷ ss) (take_all_loop (length pre + 1) ss).2
        ≡ pre ++ s ∷ (take_all_loop (length pre + 1) ss).0 =
      rw (length-snoc, shift_one, shift_one) at
        (take_all_loop-mirror (pre ++ s ∷ []) ss (next_short pre ss s s short)) in
    elim (Bool-cases (lt8 0 s.count)) [
      | inl e ↦ rw e (
          ap (λ xs. mirror xs (take_all_loop (length pre + 1) ss).2) (set_next pre ss s r.1 short)
          ∙ taken)
      | inr e ↦ rw e kept
    ]

-- The client's copy after the inventory is emptied, where that does not panic.
abbrev pub SyncedTaken : List Slot → Option (Inventory × List Slot) → Type 0
SyncedTaken base none = Unit
SyncedTaken base (some (inv, taken)) = IsSynced base inv

-- Where the updates sent so far reproduce the slots for a subscriber, they do so again after the
-- inventory of at most 2 ^ 15 slots is emptied, if that does not panic.
pub take_all_items-IsSynced :
    (base : List Slot) (inv : Inventory)
    → length inv.slots ≤ 2 ^ 15
    → IsSynced base inv
    → SyncedTaken base (take_all_items inv)
unfolding take_all_items
take_all_items-IsSynced base inv short h = elim (Bool-cases (length inv.slots == 0)) [
  | inl z ↦ rw z tt
  | inr z ↦ rw z (notify-IsSynced base _ inv _ h (take_all_loop-mirror [] inv.slots (omega arith)))
]
