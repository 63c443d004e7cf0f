-- ===== src/Furnace/Clicking.antt =====
-- A click keeps a furnace's invariant (src/chunkymonkey/gamerules/inv_furnace.go: Click).
use chunkymonkey.Base.{
  Bool, true, false, ◌||◌, Option, none, some, arith, inl, inr, Bool-cases, ◌==◌, if◌then◌else◌,
}
use chunkymonkey.Slot.{Slot, ItemTypeMap}
use chunkymonkey.Slot.Stock.{IsStock, IsTable}
use chunkymonkey.Inventory.{Inventory, Update, notify, store}
use chunkymonkey.Furnace.{
  FurnaceInventory, FurnaceData, is_present, state_check, send_progress_updates,
}
use chunkymonkey.Inventory.{Click, TxState}
use chunkymonkey.Inventory.Clicks.{Keeps, Acts, click-Acts, take_only_click-Acts}
use chunkymonkey.Furnace.{click_slot, click}
use chunkymonkey.Slot.{is_empty}
use chunkymonkey.Inventory
use chunkymonkey.Furnace.Invariant.{IsFurnaceData, IsFurnace, checked-IsFurnace}

-- What a click returns, where it does not panic.
abbrev pub Clicked : Option (FurnaceInventory × Click × TxState) → Type 0
Clicked none = Unit
Clicked (some (f, c, tx)) = IsFurnace f × IsStock c.cursor

module _ (items : ItemTypeMap) (fd : FurnaceData) (table : IsTable items)
    (good : IsFurnaceData items fd) where
  inventory-IsFurnace :
      (f : FurnaceInventory) (inv : Inventory) (cur cur' : Slot)
      → IsFurnace f
      → Keeps f.inventory.slots cur inv.slots cur'
      → IsFurnace (record f { inventory = inv })
  inventory-IsFurnace f inv cur cur' v k = record {
    sized = omega (arith, k.size, v.sized);
    stock = k.stock;
    burning = v.burning;
    burn_range = v.burn_range;
    cooking = v.cooking;
  }

  reset-IsFurnace :
      (b : Bool) (f : FurnaceInventory)
      → IsFurnace f
      → IsFurnace (if b then record f { cook_time = 185 } else f)
  reset-IsFurnace true f v = record {
    sized = v.sized;
    stock = v.stock;
    burning = v.burning;
    burn_range = v.burn_range;
    cooking = omega arith;
  }
  reset-IsFurnace false f v = v

  -- The click of the inventory, carried over to the furnace by `k`.
  carried :
      (f : FurnaceInventory) (c : Click) (r : Option (Inventory × Click × TxState))
      (k : Inventory → FurnaceInventory)
      → IsFurnace f
      → ((inv : Inventory) → IsFurnace (record f { inventory = inv }) → IsFurnace (k inv))
      → Acts f.inventory c r
      → Clicked (elim r [ none ↦ none | some (inv, c', tx) ↦ some (k inv, c', tx) ])
  carried f c none k v keep a = tt
  carried f c (some (inv, c', tx)) k v keep a =
      (keep inv (inventory-IsFurnace f inv c.cursor c'.cursor v a), a.hand)

  click_slot-Clicked :
      (f : FurnaceInventory) (c : Click)
      → IsFurnace f
      → IsStock c.cursor
      → Clicked (click_slot items fd f c)
  unfolding click_slot
  click_slot-Clicked f c v w = elim (Bool-cases (c.slot_id == 0)) [
    | inl e ↦
        rw e (
          carried f c (Inventory.click items f.inventory c) _ v (λ inv h. reset-IsFurnace _ _ h)
            any)
    | inr e ↦ elim (Bool-cases (c.slot_id == 1)) [
      | inl e1 ↦
          elim (Bool-cases (is_present (fd.fuels c.cursor.item_type_id) || is_empty c.cursor)) [
            | inl q ↦
                rw (e, e1, q)
                  (carried f c (Inventory.click items f.inventory c) _ v (λ inv h. h) any)
            | inr q ↦ rw (e, e1, q) (v, w)
          ]
      | inr e1 ↦ elim (Bool-cases (c.slot_id == 2)) [
        | inl e2 ↦
            rw (e, e1, e2)
              (carried f c (Inventory.take_only_click items f.inventory c) _ v (λ inv h. h) take)
        | inr e2 ↦ rw (e, e1, e2) (v, w)
      ]
    ]
  ]
    where
      any : Acts f.inventory c (Inventory.click items f.inventory c)
      any = click-Acts items f.inventory c table v.stock w

      take : Acts f.inventory c (Inventory.take_only_click items f.inventory c)
      take = take_only_click-Acts items f.inventory c table v.stock w

  finished :
      (r : Option (FurnaceInventory × Click × TxState))
      → Clicked r
      → Clicked (elim r [
        | none ↦ none
        | some (f', c', tx) ↦ some (send_progress_updates (state_check items fd f'), c', tx)
      ])
  finished none h = tt
  finished (some (f', c', tx)) h = (checked-IsFurnace items fd table good f' h.0, h.1)

  -- With a usable item table and usable furnace tables, a click on any slot with a well-formed cursor
  -- keeps a furnace's invariant and the well-formedness of the cursor, where it does not panic.
  pub click-Clicked :
      (f : FurnaceInventory) (c : Click)
      → IsFurnace f
      → IsStock c.cursor
      → Clicked (click items fd f c)
  unfolding click
  click-Clicked f c v w = finished (click_slot items fd f c) (click_slot-Clicked f c v w)
