-- ===== src/Furnace.antt =====
-- The furnace: src/chunkymonkey/gamerules/inv_furnace.go and the tables of furnace_data.go.
-- `Ticks` is an int64 and a progress value an int16, as bit patterns. `slot_at` reads a slot of the
-- fixed three; that a furnace always has them is part of the invariant in Furnace/Invariant.
-- `ticksSinceUpdate` is reset as soon as it passes 5, so it is a plain number.
pub mod Steps
pub mod Invariant
pub mod Clicking
pub mod Smelting
mod Tests
use chunkymonkey.Base.{
  ℕ, ◌+◌, ◌-◌, ◌*◌, ◌/◌, ◌^◌, Bool, true, false, not, ◌&&◌, ◌||◌, Option, none, some, List, [], ◌∷◌,
  ltb, ◌==◌, if◌then◌else◌, get_elem?,
}
use chunkymonkey.Base.Words.{u16, u64, le8, lt64, le64}
use chunkymonkey.Slot.{
  Slot, ItemType, ItemTypeMap, empty_slot, is_empty, max_stack_default, add_one, decrement,
}
use chunkymonkey.Inventory.{
  Inventory, Click, TxState, accepted, Update, progress_update, notify, store,
}
use chunkymonkey.Inventory

pub record Reaction : Type 0 where
  pub output : ℕ
  pub output_data : ℕ

pub record FurnaceData : Type 0 where
  pub fuels : ℕ → Option ℕ
  pub reactions : ℕ → Option Reaction

abbrev pub furnace_slot_reagent : ℕ
furnace_slot_reagent = 0

abbrev pub furnace_slot_fuel : ℕ
furnace_slot_fuel = 1

abbrev pub furnace_slot_output : ℕ
furnace_slot_output = 2

abbrev pub furnace_num_slots : ℕ
furnace_num_slots = 3

abbrev pub reaction_duration : ℕ
reaction_duration = 185

abbrev pub max_fuel_prg : ℕ
max_fuel_prg = 255

pub record FurnaceInventory : Type 0 where
  pub inventory : Inventory
  pub burn_time_max : ℕ
  pub burn_time : ℕ
  pub cook_time : ℕ
  pub last_cur_fuel : ℕ
  pub last_reaction_remaining : ℕ
  pub ticks_since_update : ℕ

unfoldable pub new_furnace_inventory : FurnaceInventory
new_furnace_inventory = record {
  inventory = Inventory.init furnace_num_slots;
  burn_time_max = 0;
  burn_time = 0;
  cook_time = reaction_duration;
  last_cur_fuel = 0;
  last_reaction_remaining = 0;
  ticks_since_update = 0;
}

abbrev pub slot_of : List Slot → ℕ → Slot
slot_of slots i = elim (get_elem? slots i) [ none ↦ empty_slot | some s ↦ s ]

abbrev pub slot_at : FurnaceInventory → ℕ → Slot
slot_at f i = slot_of f.inventory.slots i

unfoldable pub put : FurnaceInventory → ℕ → Slot → FurnaceInventory
put f i s = record f { inventory = store f.inventory i s }

unfoldable pub is_lit : FurnaceInventory → Bool
is_lit f = lt64 0 f.burn_time

-- The reaction of the reagent slot, and the ticks of the fuel slot.
abbrev pub current_reaction : FurnaceData → FurnaceInventory → Option Reaction
current_reaction fd f = fd.reactions (slot_at f furnace_slot_reagent).item_type_id

abbrev pub current_fuel : FurnaceData → FurnaceInventory → Option ℕ
current_fuel fd f = fd.fuels (slot_at f furnace_slot_fuel).item_type_id

abbrev pub is_present {ℓ} : {A : Type ℓ} → Option A → Bool
is_present none = false
is_present (some a) = true

-- `maxStack` of the output slot, whose item type may be unknown.
abbrev pub stack_limit : Option ItemType → ℕ
stack_limit none = max_stack_default
stack_limit (some t) = t.max_stack

unfoldable pub output_ready : ItemTypeMap → Slot → Option Reaction → Bool
output_ready items output reaction =
    if not (output.item_type_id == 0)
    then elim reaction [
      | none ↦ false
      | some rx ↦
          if le8 (stack_limit (items output.item_type_id)) output.count
          then false
          else not
              (not (output.item_type_id == rx.output) || not (output.item_data == rx.output_data))
    ]
    else true

-- `stateCheck`, the part for a furnace that has burnt out.
unfoldable pub ignite : FurnaceData → Bool → FurnaceInventory → FurnaceInventory
ignite fd ready f =
    if le64 f.burn_time 0
    then elim (current_fuel fd f) [
      | none ↦ record f { cook_time = reaction_duration; burn_time_max = 0; burn_time = 0 }
      | some ticks ↦
          if is_present (current_reaction fd f) && ready
          then put (record f { burn_time_max = ticks; burn_time = ticks }) furnace_slot_fuel
              (decrement (slot_at f furnace_slot_fuel)).0
          else record f { cook_time = reaction_duration; burn_time_max = 0; burn_time = 0 }
    ]
    else f

-- One reaction is complete.
unfoldable pub complete : ItemTypeMap → Reaction → FurnaceInventory → FurnaceInventory
complete items rx f =
    let created =
      let s : Slot = record { item_type_id = rx.output; count = 1; item_data = rx.output_data } in
      s in
    let filled =
      put (record f { cook_time = reaction_duration }) furnace_slot_output
        (add_one items (slot_at f furnace_slot_output) created).0 in
    put filled furnace_slot_reagent (decrement (slot_at filled furnace_slot_reagent)).0

-- `stateCheck`, the part for a lit furnace.
unfoldable pub react : ItemTypeMap → Bool → Option Reaction → FurnaceInventory → FurnaceInventory
react items ready reaction f =
    if is_lit f
    then if not ready then record f { cook_time = reaction_duration } else elim reaction [
      | none ↦ f
      | some rx ↦ if f.cook_time == 0 then complete items rx f else f
    ]
    else f

unfoldable pub state_check : ItemTypeMap → FurnaceData → FurnaceInventory → FurnaceInventory
state_check items fd f =
    let reaction = current_reaction fd f in
    let ready = output_ready items (slot_at f furnace_slot_output) reaction in
    react items ready reaction (ignite fd ready f)

-- Division of int64 values, which rounds towards zero.
abbrev pub sdiv64 : ℕ → ℕ → ℕ
sdiv64 a b =
    let size = λ (x : ℕ). if lt64 x 0 then 2 ^ 64 - x else x in
    let q = size a / size b in
    if lt64 a 0
    then (if lt64 b 0 then q else u64 (2 ^ 64 - q))
    else if lt64 b 0
    then u64 (2 ^ 64 - q)
    else q

abbrev pub fuel_progress : FurnaceInventory → ℕ
fuel_progress f =
    if f.burn_time_max == 0
    then 0
    else u16 (sdiv64 (u64 (max_fuel_prg * f.burn_time)) f.burn_time_max)

abbrev pub prg_bar_id_furnace_progress : ℕ
prg_bar_id_furnace_progress = 0

abbrev pub prg_bar_id_furnace_fire : ℕ
prg_bar_id_furnace_fire = 1

unfoldable pub send_fuel : ℕ → FurnaceInventory → FurnaceInventory
send_fuel value f = if f.last_cur_fuel == value then f else record f {
  last_cur_fuel = value;
  inventory = notify f.inventory (progress_update prg_bar_id_furnace_fire value ∷ []);
}

unfoldable pub send_reaction : ℕ → FurnaceInventory → FurnaceInventory
send_reaction value f = if f.last_reaction_remaining == value then f else record f {
  last_reaction_remaining = value;
  inventory = notify f.inventory (progress_update prg_bar_id_furnace_progress value ∷ []);
}

unfoldable pub send_progress_updates : FurnaceInventory → FurnaceInventory
send_progress_updates f =
    if not f.inventory.has_subscriber
    then f
    else if ltb 5 (f.ticks_since_update + 1) || not (is_lit f)
    then send_reaction (u16 (u64 (reaction_duration + 2 ^ 64 - f.cook_time)))
        (send_fuel (fuel_progress f) (record f { ticks_since_update = 0 }))
    else record f { ticks_since_update = f.ticks_since_update + 1 }

unfoldable pub tick : ItemTypeMap → FurnaceData → FurnaceInventory → FurnaceInventory
tick items fd f =
    if lt64 0 f.burn_time
    then send_progress_updates (
        state_check items fd (record f {
          burn_time = f.burn_time - 1;
          cook_time = if lt64 0 f.cook_time then f.cook_time - 1 else f.cook_time;
        }))
    else f

-- The `switch` of `Click`; `txState` keeps its zero value, `TxStateAccepted`, where no click of the
-- inventory is made.
unfoldable pub click_slot :
    ItemTypeMap
    → FurnaceData
    → FurnaceInventory
    → Click
    → Option (FurnaceInventory × Click × TxState)
click_slot items fd f c =
    if c.slot_id == furnace_slot_reagent
    then elim (Inventory.click items f.inventory c) [
      | none ↦ none
      | some (inv, c', tx) ↦
          let before = slot_at f furnace_slot_reagent in
          let f' = record f { inventory = inv } in
          let after = slot_at f' furnace_slot_reagent in
          some (
            if not (before.item_type_id == after.item_type_id)
                  || not (before.item_data == after.item_data)
                then record f' { cook_time = reaction_duration }
                else f',
            c',
            tx,
          )
    ]
    else if c.slot_id == furnace_slot_fuel
    then (if is_present (fd.fuels c.cursor.item_type_id) || is_empty c.cursor
        then elim (Inventory.click items f.inventory c) [
          | none ↦ none
          | some (inv, c', tx) ↦ some (record f { inventory = inv }, c', tx)
        ]
        else some (f, c, accepted))
    else if c.slot_id == furnace_slot_output
    then elim (Inventory.take_only_click items f.inventory c) [
      | none ↦ none
      | some (inv, c', tx) ↦ some (record f { inventory = inv }, c', tx)
    ]
    else some (f, c, accepted)

unfoldable pub click :
    ItemTypeMap
    → FurnaceData
    → FurnaceInventory
    → Click
    → Option (FurnaceInventory × Click × TxState)
click items fd f c = elim (click_slot items fd f c) [
  | none ↦ none
  | some (f', c', tx) ↦ some (send_progress_updates (state_check items fd f'), c', tx)
]
