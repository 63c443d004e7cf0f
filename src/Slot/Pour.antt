-- ===== src/Slot/Pour.antt =====
-- `Slot.Add`, `AddWhole` and `AddOne` (src/chunkymonkey/gamerules/slot.go) against one reference:
-- all three pour a number of items from one slot into the other.
use chunkymonkey.Base.{
  ℕ, ◌+◌, ◌-◌, ◌/◌, ◌≤◌, ◌<◌, ◌≡◌, refl, Bool, true, false, not, ◌&&◌, ◌||◌, Bool-cases, arith, inl,
  inr, Option-cases, ◌==◌, if◌then◌else◌,
}
use Prim.Native.Nat.{min}
use chunkymonkey.Base.Words.{u8}
use chunkymonkey.Slot.{
  Slot, ItemTypeMap, empty_slot, is_empty, is_same_type, is_compatible, max_stack, set_count,
  transfer, add, add_whole, split, add_one,
}
use chunkymonkey.Slot.Stock.{IsStock, IsTable}

-- Items to move: `n` of them leave `src` and join `s`, and an emptied slot is cleared.
abbrev pub pour : Slot → Slot → ℕ → Slot × Slot × Bool
pour s src n = if n == 0 then (s, src, false) else (
  record { item_type_id = src.item_type_id; count = s.count + n; item_data = src.item_data },
  if n == src.count then empty_slot else record src { count = src.count - n },
  true,
)

-- How many items of `src` still fit into `s`.
unfoldable pub fit : ItemTypeMap → Slot → Slot → ℕ
fit items s src =
    if is_empty src || not (is_compatible s src)
    then 0
    else min src.count (max_stack items src - s.count)

pub max_stack-le : (items : ItemTypeMap) (s : Slot) → IsTable items → max_stack items s ≤ 64
unfolding max_stack
max_stack-le items s table = elim (Option-cases (items s.item_type_id)) [
  | inl e ↦ ground arith
  | inr (t, e) ↦ ground (arith, table s.item_type_id t e)
]

transfer_lem :
    (limit : ℕ) (s src : Slot)
    → limit ≤ 64
    → s.count < limit
    → src.count ≤ 64
    → 0 < src.count
    → transfer limit s src ≡ pour s src (min src.count (limit - s.count))
unfolding transfer set_count
transfer_lem limit s src h room small some_left = ground arith

pour_one :
    (s src : Slot)
    → s.count < 64
    → src.count ≤ 64
    → 0 < src.count
    → pour s src 1 ≡ (
      record (set_count s (u8 (s.count + 1))) {
        item_type_id = src.item_type_id;
        item_data = src.item_data;
      },
      set_count src (u8 (src.count + 255)),
      true,
    )
unfolding set_count
pour_one s src room small some_left = ground arith

same_or_empty :
    (s src : Slot)
    → is_empty src ≡ false
    → (not (is_same_type s src) && not (is_empty s)) ≡ not (is_compatible s src)
unfolding is_compatible
same_or_empty s src h = ground arith

count_pos : (s : Slot) → is_empty s ≡ false → 0 < s.count
unfolding is_empty
count_pos s h = ground arith

module _ (items : ItemTypeMap) (s src : Slot) (table : IsTable items) where
  -- On well-formed slots, `Add` pours as many items as fit, and reports whether it poured any.
  pub add_lem : IsStock s → IsStock src → add items s src ≡ pour s src (fit items s src)
  unfolding add fit is_empty
  add_lem v w =
      ground (arith, max_stack-le items src table, transfer_lem (max_stack items src) s src)

  -- On well-formed slots, `AddWhole` pours all items of the source if they fit, else none, although its
  -- sum of the counts can overflow int8.
  pub add_whole_lem :
      IsStock s
      → IsStock src
      → add_whole items s src ≡ pour s src (if fit items s src == src.count then src.count else 0)
  unfolding add_whole fit is_empty max_stack
  add_whole_lem v w = elim (Option-cases (items src.item_type_id)) [
    | inl e ↦ ground arith
    | inr (t, e) ↦ ground (arith, table src.item_type_id t e, add_lem v w)
  ]

  -- On well-formed slots, `AddOne` pours one item, if one fits, else none.
  pub add_one_lem :
      IsStock s → IsStock src → add_one items s src ≡ pour s src (min 1 (fit items s src))
  unfolding add_one fit
  add_one_lem v w = elim (Bool-cases (is_empty src)) [
    | inl e ↦ rw (e, add_one, fit) refl
    | inr e ↦ ground (
      arith,
      same_or_empty s src e,
      count_pos src e,
      max_stack-le items src table,
      pour_one s src,
    )
  ]

-- On well-formed slots, `Split` pours the larger half of the other slot's items into an empty slot, and
-- does nothing where the receiving slot is not empty or the other one is.
pub split_lem :
    (s src : Slot)
    → IsStock s
    → IsStock src
    → split s src ≡ (
        let n = (if is_empty s || not (is_empty src) then 0 else s.count - s.count / 2) in
        let (src', s', changed) = pour src s n in (s', src', changed))
unfolding split is_empty set_count
split_lem s src v w = ground arith
