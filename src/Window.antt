-- ===== src/Window.antt =====
-- Windows: src/chunkymonkey/window/window.go. A window shows several inventories side by side and
-- hands a click on to the one that it falls into. The inventories' type and operations are a
-- parameter, the interface IInventory of the source. Slot identifiers are int16 bit patterns.
pub mod Routing
mod Tests
use chunkymonkey.Base.{
  ℕ, ◌+◌, ◌-◌, ◌^◌, Bool, true, false, ◌&&◌, Option, none, some, List, [], ◌∷◌, if◌then◌else◌,
}
use chunkymonkey.Base.Words.{u16, le16, lt16}
use chunkymonkey.Inventory.{Click, TxState, rejected}

-- What a window requires of an inventory; `set_subscriber` tells whether a subscriber is set.
pub record IInventory {ℓ} (A : Type ℓ) : Type ℓ where
  pub num_slots : A → ℕ
  pub click : A → Click → Option (A × Click × TxState)
  pub set_subscriber : A → Bool → A

pub record InventoryView {ℓ} (A : Type ℓ) : Type ℓ where
  pub inventory : A
  pub start_slot : ℕ
  pub end_slot : ℕ

pub record Window {ℓ} (A : Type ℓ) : Type ℓ where
  pub window_id : ℕ
  pub inv_type_id : ℕ
  pub views : List (InventoryView A)
  pub num_slots : ℕ

module _ {ℓ} {A : Type ℓ} (ops : IInventory A) where
  -- `(*inventoryView).Init`
  unfoldable pub init_view : A → ℕ → ℕ → InventoryView A
  init_view inv start_slot end_slot = record {
    inventory = ops.set_subscriber inv true;
    start_slot = start_slot;
    end_slot = end_slot;
  }

  -- The loop of `(*Window).Init`: the views, and the slot after the last one.
  unfoldable pub init_views : ℕ → List A → List (InventoryView A) × ℕ
  init_views start_slot [] = ([], start_slot)
  init_views start_slot (inv ∷ invs) =
      let end_slot = u16 (start_slot + ops.num_slots inv) in
      let (views, last) = init_views end_slot invs in
      (init_view inv start_slot end_slot ∷ views, last)

  unfoldable pub init_window : ℕ → ℕ → List A → Window A
  init_window window_id inv_type_id inventories =
      let (views, last) = init_views 0 inventories in
      record { window_id = window_id; inv_type_id = inv_type_id; views = views; num_slots = last }

  -- A click inside a view, in the inventory's own slot numbers; only the cursor comes back.
  unfoldable pub click_view : InventoryView A → Click → Option (InventoryView A × Click × TxState)
  click_view view c =
      elim (ops.click view.inventory
        (record c { slot_id = u16 (c.slot_id + 2 ^ 16 - view.start_slot) })) [
          | none ↦ none
          | some (inv, c', tx) ↦
              some (record view { inventory = inv }, record c { cursor = c'.cursor }, tx)
        ]

  abbrev pub is_inside : InventoryView A → Click → Bool
  is_inside view c = le16 view.start_slot c.slot_id && lt16 c.slot_id view.end_slot

  -- The loop of `(*Window).Click`
  unfoldable pub click_views :
      List (InventoryView A) → Click → Option (List (InventoryView A) × Click × TxState)
  click_views [] c = some ([], c, rejected)
  click_views (view ∷ views) c = elim (is_inside view c) [
    | true ↦ elim (click_view view c) [
      | none ↦ none
      | some (view', c', tx) ↦ some (view' ∷ views, c', tx)
    ]
    | false ↦ elim (click_views views c) [
      | none ↦ none
      | some (views', c', tx) ↦ some (view ∷ views', c', tx)
    ]
  ]

  unfoldable pub click_window : Window A → Click → Option (Window A × Click × TxState)
  click_window w c =
      if le16 0 c.slot_id
      then elim (click_views w.views c) [
        | none ↦ none
        | some (views, c', tx) ↦ some (record w { views = views }, c', tx)
      ]
      else some (w, c, rejected)

  -- `(*Window).Finalize`, which unsubscribes every view.
  unfoldable pub finalize_views : List (InventoryView A) → List (InventoryView A)
  finalize_views [] = []
  finalize_views (view ∷ views) =
      record view { inventory = ops.set_subscriber view.inventory false } ∷ finalize_views views

-- The slot of the window that `(*inventoryView).SlotUpdate` reports.
unfoldable pub relayed_slot {ℓ} : {A : Type ℓ} → InventoryView A → ℕ → ℕ
relayed_slot view slot_id = u16 (view.start_slot + slot_id)
