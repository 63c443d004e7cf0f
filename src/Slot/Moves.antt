-- ===== src/Slot/Moves.antt =====
-- What the slot operations move: nothing is lost or made up, and well-formed slots stay so.
use chunkymonkey.Base.{
  ℕ, ◌+◌, ◌-◌, ◌/◌, ◌≤◌, ◌≡◌, refl, ◌≢◌, ◌⊎◌, Bool, not, ◌&&◌, ◌||◌, arith, inl, inr, Bool-cases,
  ◌==◌, ltb, if◌then◌else◌,
}
use chunkymonkey.Slot.{
  Slot, ItemTypeMap, is_empty, is_same_type, is_compatible, set_count, add, add_whole, swap, split,
  add_one, decrement,
}
use chunkymonkey.Slot.Stock.{amount, IsStock, IsTable}
use chunkymonkey.Slot.Swap.{swap_lem}
use chunkymonkey.Slot.Pour.{pour, fit, max_stack-le, add_lem, add_whole_lem, add_one_lem, split_lem}

-- A call on two slots keeps their items, and keeps both well formed.
pub record Conserves (s src : Slot) (r : Slot × Slot × Bool) : Type 0 where
  pub total : (t d : ℕ) → amount t d r.0 + amount t d r.1 ≡ amount t d s + amount t d src
  pub left : IsStock r.0
  pub right : IsStock r.1

-- The items that `pour` is given to move are there, they fit, and they may stand together.
record IsPour (s src : Slot) (n : ℕ) : Type 0 where
  available : n ≤ src.count
  fits : s.count + n ≤ 64
  alike :
      n ≢ 0 → (s.count ≡ 0) ⊎ ((s.item_type_id ≡ src.item_type_id) × (s.item_data ≡ src.item_data))

pour_total :
    (s src : Slot) (n t d : ℕ)
    → IsPour s src n
    → let r = pour s src n in amount t d r.0 + amount t d r.1 ≡ amount t d s + amount t d src
pour_total s src n t d h = elim (Bool-cases (n == 0)) [
  | inl e ↦ rw e refl
  | inr e ↦ ground (arith, h.alike)
]

pour-Conserves :
    (s src : Slot) (n : ℕ)
    → IsStock s
    → IsStock src
    → IsPour s src n
    → Conserves s src (pour s src n)
pour-Conserves s src n v w h = record {
  total = λ t d. pour_total s src n t d h;
  left = ground (arith, h.alike);
  right = ground arith;
}

module _ (items : ItemTypeMap) (s src : Slot) (table : IsTable items) where
  fit-IsPour : IsStock s → IsPour s src (fit items s src)
  unfolding fit is_compatible is_empty is_same_type
  fit-IsPour v = ground (arith, max_stack-le items src table)

  -- `Add` moves items from `src` to `s` and loses none.
  pub add-Conserves : IsStock s → IsStock src → Conserves s src (add items s src)
  add-Conserves v w = rw (add_lem items s src table v w) (pour-Conserves s src _ v w (fit-IsPour v))

  pub add_whole-Conserves : IsStock s → IsStock src → Conserves s src (add_whole items s src)
  add_whole-Conserves v w =
      rw (add_whole_lem items s src table v w)
        (pour-Conserves s src _ v w (ground (arith, fit-IsPour v)))

  pub add_one-Conserves : IsStock s → IsStock src → Conserves s src (add_one items s src)
  add_one-Conserves v w =
      rw (add_one_lem items s src table v w)
        (pour-Conserves s src _ v w (ground (arith, fit-IsPour v)))

pub swap-Conserves : (s src : Slot) → IsStock s → IsStock src → Conserves s src (swap s src)
swap-Conserves s src v w =
    rw (swap_lem s src) (record { total = λ t d. omega arith; left = w; right = v })

split-IsPour :
    (s src : Slot)
    → IsStock s
    → IsStock src
    → IsPour src s (if is_empty s || not (is_empty src) then 0 else s.count - s.count / 2)
unfolding is_empty
split-IsPour s src v w = ground arith

pub split-Conserves : (s src : Slot) → IsStock s → IsStock src → Conserves s src (split s src)
split-Conserves s src v w =
    let half = pour-Conserves src s _ w v (split-IsPour s src v w) in
    rw (split_lem s src v w) (record {
      total = λ t d. omega (arith, half.total t d);
      left = half.right;
      right = half.left;
    })

-- On a well-formed slot, `Decrement` leaves a well-formed slot, reports a change exactly if there was
-- an item, and takes one item of the slot's own type and data away, of no other, if there was one.
pub decrement_lem :
    (s : Slot)
    → IsStock s
    → IsStock (decrement s).0
      × ((decrement s).1 ≡ ltb 0 s.count)
      × ((t d : ℕ)
          → amount t d (decrement s).0
            ≡ amount t d s - (if (s.item_type_id == t) && (s.item_data == d) then 1 else 0))
unfolding decrement set_count
decrement_lem s v = (ground arith, ground arith, λ t d. ground arith)
