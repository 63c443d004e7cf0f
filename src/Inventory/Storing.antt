-- ===== src/Inventory/Storing.antt =====
-- Putting an item away (src/chunkymonkey/gamerules/inventory.go: PutItem, CanTakeItem).
use chunkymonkey.Base.{
  ℕ, ◌+◌, ◌≤◌, ◌≡◌, refl, ◌∙◌, ◌⊎◌, inl, inr, true, false, List, [], ◌∷◌, arith, Bool-cases, ltb,
  ◌==◌, if◌then◌else◌,
}
use chunkymonkey.Base.Words.{le8}
use chunkymonkey.Slot.{Slot, ItemTypeMap, is_empty, is_same_type, is_compatible, max_stack, add}
use chunkymonkey.Slot.Stock.{IsStock, IsTable}
use chunkymonkey.Slot.Pour.{pour, fit, add_lem}
use chunkymonkey.Slot.Moves.{add-Conserves}
use chunkymonkey.Inventory.{Inventory, Update, put_loop, put_item, can_take_loop, can_take_item}
use chunkymonkey.Inventory.Held.{AllStock}
use chunkymonkey.Inventory.Clicks.{Keeps, slots-notify}

-- What is left of an item while some of it is put away: none of it, or fewer of the same.
abbrev pub Shrinks : Slot → Slot → Type 0
Shrinks item left =
    (left.count ≡ 0)
    ⊎ ((left.item_type_id ≡ item.item_type_id)
        × (left.item_data ≡ item.item_data)
        × (left.count ≤ item.count))

pour-Shrinks :
    (s item : Slot) (n : ℕ)
    → n ≤ item.count
    → let r = pour s item n in
      Shrinks item r.1 × (r.1.count ≤ item.count) × (r.2 ≡ ltb r.1.count item.count)
pour-Shrinks s item n h = (ground arith, ground arith, ground arith)

fit-le : (items : ItemTypeMap) (s item : Slot) → fit items s item ≤ item.count
unfolding fit
fit-le items s item = ground arith

max_stack_alike :
    (items : ItemTypeMap) (a b : Slot)
    → a.item_type_id ≡ b.item_type_id
    → is_empty a ≡ false
    → is_empty b ≡ false
    → max_stack items a ≡ max_stack items b
unfolding max_stack
max_stack_alike items a b e h k = rw (h, k, e) refl

fit_empty : (items : ItemTypeMap) (s src : Slot) → is_empty src ≡ true → fit items s src ≡ 0
unfolding fit
fit_empty items s src h = rw h refl

-- Once a slot has taken what fits, nothing of what is left fits any more.
fit-pour :
    (items : ItemTypeMap) (s item left : Slot)
    → Shrinks (pour s item (fit items s item)).1 left
    → fit items (pour s item (fit items s item)).0 left ≡ 0
unfolding fit is_compatible is_same_type is_empty
fit-pour items s item left h = elim (Bool-cases (is_empty left)) [
  | inl e ↦ fit_empty items (pour s item (fit items s item)).0 left e
  | inr e ↦ elim (Bool-cases (is_empty item)) [
    | inl e' ↦ ground arith
    | inr e' ↦ ground (arith, max_stack_alike items left item)
  ]
]

module _ (items : ItemTypeMap) (table : IsTable items) where
  -- After one `Add`: the flag tells whether the item shrank.
  add-Shrinks :
      (s item : Slot)
      → IsStock s
      → IsStock item
      → let r = add items s item in
        Shrinks item r.1 × (r.1.count ≤ item.count) × (r.2 ≡ ltb r.1.count item.count)
  add-Shrinks s item v w =
      rw (add_lem items s item table v w) (pour-Shrinks s item _ (fit-le items s item))

  full :
      (s item left : Slot)
      → IsStock s
      → IsStock item
      → IsStock left
      → Shrinks (add items s item).1 left
      → add items (add items s item).0 left ≡ ((add items s item).0, left, false)
  full s item left v w x h =
      let stock = (add-Conserves items s item table v w).left in
      rw (add_lem items (add items s item).0 left table stock x, no_room) refl
    where
      no_room : fit items (add items s item).0 left ≡ 0
      no_room =
          rw (add_lem items s item table v w)
            (fit-pour items s item left (rw (add_lem items s item table v w) at h))

  none_taken : (ss : List Slot) (item : Slot) → item.count ≡ 0 → can_take_loop items ss item ≡ false
  unfolding can_take_loop add is_empty
  none_taken [] item h = refl
  none_taken (s ∷ ss) item h = ground (arith, none_taken ss item h)

  le8_zero : (n : ℕ) → n ≤ 64 → le8 n 0 ≡ (n == 0)
  le8_zero n h = ground arith

  -- What holds of an emptied item and of a round of the loop holds of the loop.
  put_loop_cases {ℓ} :
      (P : List Slot × Slot × List Update → Type ℓ) (i : ℕ) (s : Slot) (ss : List Slot)
      (item : Slot)
      → IsStock item
      → (item.count ≡ 0 → P (s ∷ ss, item, []))
      → ((us : List Update)
          → let r = add items s item in
            let rest = put_loop items (i + 1) ss r.1 in P (r.0 ∷ rest.0, rest.1, us))
      → P (put_loop items i (s ∷ ss) item)
  unfolding put_loop
  put_loop_cases P i s ss item w gone more = elim (Bool-cases (item.count == 0)) [
    | inl e ↦ rw (le8_zero item.count w.small, e) (gone (ground arith))
    | inr e ↦ rw (le8_zero item.count w.small, e) (more _)
  ]

  pub put_loop-Keeps :
      (i : ℕ) (ss : List Slot) (item : Slot)
      → AllStock ss
      → IsStock item
      → let r = put_loop items i ss item in Keeps ss item r.0 r.1
  unfolding put_loop
  put_loop-Keeps i [] item v w = record { total = λ t d. refl; size = refl; stock = tt; hand = w }
  put_loop-Keeps i (s ∷ ss) item v w =
      let one = add-Conserves items s item table v.0 w in
      let rest = put_loop-Keeps (i + 1) ss (add items s item).1 v.1 one.right in
      put_loop_cases (λ r. Keeps (s ∷ ss) item r.0 r.1) i s ss item w
        (λ _. record { total = λ t d. refl; size = refl; stock = v; hand = w })
        λ us. record {
          total = λ t d. omega (arith, one.total t d, rest.total t d);
          size = omega (arith, rest.size);
          stock = (one.left, rest.stock);
          hand = rest.hand;
        }

  pub put_loop-Shrinks :
      (i : ℕ) (ss : List Slot) (item : Slot)
      → AllStock ss
      → IsStock item
      → let left = (put_loop items i ss item).1 in Shrinks item left × (left.count ≤ item.count)
  unfolding put_loop
  put_loop-Shrinks i [] item v w = (inr (refl, refl, omega arith), omega arith)
  put_loop-Shrinks i (s ∷ ss) item v w =
      let one = add-Conserves items s item table v.0 w in
      let shrunk = add-Shrinks s item v.0 w in
      let rest = put_loop-Shrinks (i + 1) ss (add items s item).1 v.1 one.right in
      put_loop_cases (λ r. Shrinks item r.1 × (r.1.count ≤ item.count)) i s ss item w
        (λ _. (inr (refl, refl, omega arith), omega arith))
        λ us. (ground (arith, shrunk, rest), omega (arith, shrunk.1, rest.1))

  -- What the loop leaves over, no slot takes afterwards.
  pub put_loop_leaves :
      (i : ℕ) (ss : List Slot) (item : Slot)
      → AllStock ss
      → IsStock item
      → let r = put_loop items i ss item in can_take_loop items r.0 r.1 ≡ false
  unfolding put_loop can_take_loop
  put_loop_leaves i [] item v w = refl
  put_loop_leaves i (s ∷ ss) item v w =
      let one = add-Conserves items s item table v.0 w in
      let rest = put_loop_leaves (i + 1) ss (add items s item).1 v.1 one.right in
      let hand = (put_loop-Keeps (i + 1) ss (add items s item).1 v.1 one.right).hand in
      let shrunk = put_loop-Shrinks (i + 1) ss (add items s item).1 v.1 one.right in
      put_loop_cases (λ r. can_take_loop items r.0 r.1 ≡ false) i s ss item w
        (λ e. none_taken (s ∷ ss) item e) λ us. rw (full s item _ v.0 w hand shrunk.0) rest

  -- The loop takes some of the item exactly if the query says that it would.
  pub put_loop-can_take :
      (i : ℕ) (ss : List Slot) (item : Slot)
      → AllStock ss
      → IsStock item
      → can_take_loop items ss item ≡ ltb (put_loop items i ss item).1.count item.count
  unfolding put_loop can_take_loop
  put_loop-can_take i [] item v w = ground arith
  put_loop-can_take i (s ∷ ss) item v w =
      let one = add-Conserves items s item table v.0 w in
      let shrunk = add-Shrinks s item v.0 w in
      let rest = put_loop-can_take (i + 1) ss (add items s item).1 v.1 one.right in
      let later = put_loop-Shrinks (i + 1) ss (add items s item).1 v.1 one.right in
      put_loop_cases (λ r. can_take_loop items (s ∷ ss) item ≡ ltb r.1.count item.count) i s ss item
        w (λ e. none_taken (s ∷ ss) item e ∙ ground arith) λ us. ground (arith, shrunk, rest, later)

  -- Putting a well-formed item away in well-formed slots neither loses nor makes up items, counted on
  -- the slots and what is left of the item together, and leaves all of them well formed.
  pub put_item-Keeps :
      (inv : Inventory) (item : Slot)
      → AllStock inv.slots
      → IsStock item
      → let r = put_item items inv item in Keeps inv.slots item r.0.slots r.1
  unfolding put_item
  put_item-Keeps inv item v w = rw (slots-notify _ _) (put_loop-Keeps 0 inv.slots item v w)

  -- For well-formed slots and item, `CanTakeItem` says exactly whether `PutItem` takes any of the item;
  -- `PutItem` is greedy, so that the inventory can take no more of what it leaves; and what it leaves
  -- is the item with at most the same count, or nothing.
  pub put_item_greedy :
      (inv : Inventory) (item : Slot)
      → AllStock inv.slots
      → IsStock item
      → let r = put_item items inv item in
        (can_take_item items inv item ≡ ltb r.1.count item.count)
        × (can_take_item items r.0 r.1 ≡ false)
        × Shrinks item r.1
  unfolding put_item can_take_item
  put_item_greedy inv item v w = (asked, after, (put_loop-Shrinks 0 inv.slots item v w).0)
    where
      asked :
          (if le8 item.count 0 then false else can_take_loop items inv.slots item)
          ≡ ltb (put_loop items 0 inv.slots item).1.count item.count
      asked = ground (arith, put_loop-can_take 0 inv.slots item v w, none_taken inv.slots item)

      after : can_take_item items (put_item items inv item).0 (put_item items inv item).1 ≡ false
      after = rw (slots-notify _ _) (ground (arith, put_loop_leaves 0 inv.slots item v w))
