-- ===== src/Inventory.antt =====
-- Inventories: src/chunkymonkey/gamerules/inventory.go. What an inventory tells its subscriber is
-- kept in `sent`, oldest first; nothing is sent while no subscriber is set. `none` is a run-time
-- panic (an index out of range, a negative capacity). A slot identifier is an int16 bit pattern.
pub mod Held
pub mod Clicks
pub mod Storing
pub mod Emptying
pub mod Mirror
pub mod Tests
use chunkymonkey.Base.{
  ℕ, ◌+◌, Bool, true, false, not, ◌||◌, Option, none, some, List, [], ◌∷◌, ◌++◌, ltb, ◌==◌,
  if◌then◌else◌, length, get_elem?, set, replicate,
}
use chunkymonkey.Base.Words.{lt8, le8, lt16, u16}
use chunkymonkey.Slot.{Slot, ItemTypeMap, empty_slot, equals, add, add_whole, swap, split, add_one}

-- A call of `IInventorySubscriber`.
pub data Update : Type 0 where
  slot_update : Slot → ℕ → Update
  progress_update : ℕ → ℕ → Update

pub data TxState : Type 0 where
  accepted rejected deferred : TxState

pub record Click : Type 0 where
  pub slot_id : ℕ
  pub cursor : Slot
  pub right_click : Bool
  pub shift_click : Bool
  pub tx_id : ℕ
  pub expected_slot : Slot

pub record Inventory : Type 0 where
  pub slots : List Slot
  pub has_subscriber : Bool
  pub sent : List Update

-- `Init` on a new inventory.
unfoldable pub init : ℕ → Inventory
init size = record { slots = replicate size empty_slot; has_subscriber = false; sent = [] }

unfoldable pub set_subscriber : Inventory → Bool → Inventory
set_subscriber inv present = record inv { has_subscriber = present }

unfoldable pub notify : Inventory → List Update → Inventory
notify inv us = if inv.has_subscriber then record inv { sent = inv.sent ++ us } else inv

-- Write a slot, and pass it to `slotUpdate`.
unfoldable pub store : Inventory → ℕ → Slot → Inventory
store inv i s = notify (record inv { slots = set inv.slots i s }) (slot_update s i ∷ [])

-- What a click does to the slot and the cursor, once it is accepted.
unfoldable pub exchange : ItemTypeMap → Bool → Slot → Slot → Slot × Slot × Bool
exchange items right_click clicked cursor =
    if cursor.count == 0
    then (if right_click then split clicked cursor else swap clicked cursor)
    else let r = (if right_click then add_one items clicked cursor else add items clicked cursor) in
      if r.2 then r else swap r.0 r.1

unfoldable pub click : ItemTypeMap → Inventory → Click → Option (Inventory × Click × TxState)
click items inv c =
    if lt16 c.slot_id 0 || ltb (length inv.slots) c.slot_id
    then some (inv, c, rejected)
    else elim (get_elem? inv.slots c.slot_id) [
      | none ↦ none
      | some clicked ↦
          if not (equals c.expected_slot clicked)
          then some (inv, c, rejected)
          else let r = exchange items c.right_click clicked c.cursor in
            some (store inv c.slot_id r.0, record c { cursor = r.1 }, accepted)
    ]

unfoldable pub take_only_click :
    ItemTypeMap → Inventory → Click → Option (Inventory × Click × TxState)
take_only_click items inv c =
    if lt16 c.slot_id 0 || ltb (length inv.slots) c.slot_id
    then some (inv, c, rejected)
    else elim (get_elem? inv.slots c.slot_id) [
      | none ↦ none
      | some clicked ↦
          if not (equals c.expected_slot clicked)
          then some (inv, c, rejected)
          else let r = add_whole items c.cursor clicked in
            some (store inv c.slot_id r.1, record c { cursor = r.0 }, accepted)
    ]

-- `TakeOneItem`, with the slot `into` that receives the item.
unfoldable pub take_one_item : ItemTypeMap → Inventory → ℕ → Slot → Option (Inventory × Slot)
take_one_item items inv slot_id into = elim (get_elem? inv.slots slot_id) [
  | none ↦ none
  | some s ↦
      let r = add_one items into s in
      some (
        if r.2 then store inv slot_id r.1 else record inv { slots = set inv.slots slot_id r.1 },
        r.0,
      )
]

-- The loop of `PutItem` over the slots from index `i` on: the slots, the item and the updates.
unfoldable pub put_loop : ItemTypeMap → ℕ → List Slot → Slot → List Slot × Slot × List Update
put_loop items i [] item = ([], item, [])
put_loop items i (s ∷ ss) item =
    let r = add items s item in
    let (rest, left, us) = put_loop items (i + 1) ss r.1 in
    if le8 item.count 0
    then (s ∷ ss, item, [])
    else (r.0 ∷ rest, left, if r.2 then slot_update r.0 (u16 i) ∷ us else us)

unfoldable pub put_item : ItemTypeMap → Inventory → Slot → Inventory × Slot
put_item items inv item =
    let (slots, left, us) = put_loop items 0 inv.slots item in
    (notify (record inv { slots = slots }) us, left)

-- `CanTakeItem` tries `Add` on copies; the copy of the item is left as it was until the first hit.
unfoldable pub can_take_loop : ItemTypeMap → List Slot → Slot → Bool
can_take_loop items [] item = false
can_take_loop items (s ∷ ss) item =
    let r = add items s item in
    let later = can_take_loop items ss r.1 in if r.2 then true else later

unfoldable pub can_take_item : ItemTypeMap → Inventory → Slot → Bool
can_take_item items inv item =
    if le8 item.count 0 then false else can_take_loop items inv.slots item

-- The loop of `TakeAllItems`: the emptied slots, the items taken and the updates.
unfoldable pub take_all_loop : ℕ → List Slot → List Slot × List Slot × List Update
take_all_loop i [] = ([], [], [])
take_all_loop i (s ∷ ss) =
    let (rest, items, us) = take_all_loop (i + 1) ss in
    let r = swap empty_slot s in
    if lt8 0 s.count
    then (r.1 ∷ rest, r.0 ∷ items, slot_update r.1 (u16 i) ∷ us)
    else (s ∷ rest, items, us)

-- The result is made with the capacity `len(inv.slots) - 1`, which panics on no slots at all.
unfoldable pub take_all_items : Inventory → Option (Inventory × List Slot)
take_all_items inv =
    if length inv.slots == 0
    then none
    else let (slots, items, us) = take_all_loop 0 inv.slots in
      some (notify (record inv { slots = slots }) us, items)
