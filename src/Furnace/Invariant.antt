-- ===== src/Furnace/Invariant.antt =====
-- The invariant of a furnace (src/chunkymonkey/gamerules/inv_furnace.go): its three slots are well
-- formed, and its counters stay in range, however long it runs.
use chunkymonkey.Base.{
  ℕ, ◌^◌, ◌≤◌, ◌<◌, ◌≡◌, ◌∙◌, Bool, ◌&&◌, some, List, arith, inl, inr, Option-cases, Bool-cases,
  ◌==◌, length, length-set, All-set, All-get, get_elem?_total,
}
use chunkymonkey.Base.Words.{lt64, le64}
use chunkymonkey.Slot.{Slot, ItemType, ItemTypeMap}
use chunkymonkey.Slot.Stock.{IsStock, IsTable}
use chunkymonkey.Slot.Moves.{decrement_lem, add_one-Conserves}
use chunkymonkey.Inventory.Held.{AllStock}
use chunkymonkey.Inventory.Clicks.{slots-store}
use chunkymonkey.Furnace.{
  FurnaceInventory, FurnaceData, Reaction, slot_of, slot_at, put, is_lit, current_reaction,
  current_fuel, is_present, ignite, complete, react, state_check, send_progress_updates, tick,
}
use chunkymonkey.Furnace.Steps.{SameFurnace, send_progress_updates-Same}

-- The tables hold usable data: a fuel burns for some time, and what a reaction makes is a known
-- item that stacks.
pub record IsFurnaceData (items : ItemTypeMap) (fd : FurnaceData) : Type 0 where
  pub fuel_burns : (i t : ℕ) → fd.fuels i ≡ some t → (0 < t) × (t < 2 ^ 63)
  pub output_known :
      (i : ℕ) (rx : Reaction)
      → fd.reactions i ≡ some rx
      → (0 < rx.output)
        × (rx.output < 2 ^ 16)
        × (rx.output_data < 2 ^ 16)
        × (t : ItemType) × (items rx.output ≡ some t)
        × (0 < t.max_stack)

-- What every reachable furnace satisfies.
pub record IsFurnace (f : FurnaceInventory) : Type 0 where
  pub sized : length f.inventory.slots ≡ 3
  pub stock : AllStock f.inventory.slots
  pub burning : f.burn_time ≤ f.burn_time_max
  pub burn_range : f.burn_time_max < 2 ^ 63
  pub cooking : f.cook_time ≤ 185

slot_of-IsStock : (xs : List Slot) (i : ℕ) → i < length xs → AllStock xs → IsStock (slot_of xs i)
slot_of-IsStock xs i h v =
    let (s, e) = get_elem?_total xs i h in rw (e, slot_of) (All-get IsStock xs i s v e)

put-IsFurnace :
    (f : FurnaceInventory) (i : ℕ) (s : Slot) → IsFurnace f → IsStock s → IsFurnace (put f i s)
unfolding put
put-IsFurnace f i s v w = record {
  sized = rw (slots-store f.inventory i s) (length-set f.inventory.slots i s ∙ v.sized);
  stock = rw (slots-store f.inventory i s) (All-set IsStock f.inventory.slots i s v.stock w);
  burning = v.burning;
  burn_range = v.burn_range;
  cooking = v.cooking;
}

pub slot_at-IsStock : (f : FurnaceInventory) (i : ℕ) → IsFurnace f → i < 3 → IsStock (slot_at f i)
slot_at-IsStock f i v h = slot_of-IsStock f.inventory.slots i (omega (arith, v.sized)) v.stock

module _ (items : ItemTypeMap) (fd : FurnaceData) (table : IsTable items)
    (good : IsFurnaceData items fd) where
  ignite-IsFurnace :
      (ready : Bool) (f : FurnaceInventory) → IsFurnace f → IsFurnace (ignite fd ready f)
  unfolding ignite
  ignite-IsFurnace ready f v = elim (Bool-cases (le64 f.burn_time 0)) [
    | inr e ↦ rw e v
    | inl e ↦ elim (Option-cases (current_fuel fd f)) [
      | inl g ↦ rw (e, g) (out v)
      | inr (t, g) ↦ elim (Bool-cases (is_present (current_reaction fd f) && ready)) [
        | inr q ↦ rw (e, g, q) (out v)
        | inl q ↦
            rw (e, g, q)
              (put-IsFurnace _ 1 _ (lit v t g)
                (decrement_lem (slot_at f 1) (slot_at-IsStock f 1 v (omega arith))).0)
      ]
    ]
  ]
    where
      out : IsFurnace f → IsFurnace (record f { cook_time = 185; burn_time_max = 0; burn_time = 0 })
      out v = record {
        sized = v.sized;
        stock = v.stock;
        burning = omega arith;
        burn_range = omega arith;
        cooking = omega arith;
      }

      lit :
          IsFurnace f
          → (t : ℕ) → current_fuel fd f ≡ some t
          → IsFurnace (record f { burn_time_max = t; burn_time = t })
      lit v t g = record {
        sized = v.sized;
        stock = v.stock;
        burning = omega arith;
        burn_range = omega (arith, good.fuel_burns _ t g);
        cooking = v.cooking;
      }

  pub created-IsStock :
      (i : ℕ) (rx : Reaction)
      → fd.reactions i ≡ some rx
      → IsStock (record { item_type_id = rx.output; count = 1; item_data = rx.output_data })
  created-IsStock i rx e = omega (arith, good.output_known i rx e)

  complete-IsFurnace :
      (i : ℕ) (rx : Reaction) (f : FurnaceInventory)
      → fd.reactions i ≡ some rx
      → IsFurnace f
      → IsFurnace (complete items rx f)
  unfolding complete
  complete-IsFurnace i rx f e v =
      let reset : IsFurnace (record f { cook_time = 185 }) = record {
        sized = v.sized;
        stock = v.stock;
        burning = v.burning;
        burn_range = v.burn_range;
        cooking = omega arith;
      } in
      let added =
        add_one-Conserves items (slot_at f 2) _ table (slot_at-IsStock f 2 v (omega arith))
          (created-IsStock i rx e) in
      let filled = put-IsFurnace _ 2 _ reset added.left in
      put-IsFurnace _ 0 _ filled (decrement_lem _ (slot_at-IsStock _ 0 filled (omega arith))).0

  react-IsFurnace :
      (ready : Bool) (f g : FurnaceInventory)
      → IsFurnace g
      → IsFurnace (react items ready (current_reaction fd f) g)
  unfolding react
  react-IsFurnace ready f g v = elim (Bool-cases (is_lit g)) [
    | inr e ↦ rw e v
    | inl e ↦ elim (Bool-cases ready) [
      | inr r ↦
          rw (e, r)
            (record {
              sized = v.sized;
              stock = v.stock;
              burning = v.burning;
              burn_range = v.burn_range;
              cooking = omega arith;
            })
      | inl r ↦ elim (Option-cases (current_reaction fd f)) [
        | inl n ↦ rw (e, r, n) v
        | inr (rx, n) ↦ elim (Bool-cases (g.cook_time == 0)) [
          | inl z ↦ rw (e, r, n, z) (complete-IsFurnace _ rx g n v)
          | inr z ↦ rw (e, r, n, z) v
        ]
      ]
    ]
  ]

  state_check-IsFurnace : (f : FurnaceInventory) → IsFurnace f → IsFurnace (state_check items fd f)
  unfolding state_check
  state_check-IsFurnace f v = react-IsFurnace _ f _ (ignite-IsFurnace _ f v)

  same-IsFurnace : (f g : FurnaceInventory) → SameFurnace f g → IsFurnace f → IsFurnace g
  same-IsFurnace f g s v = record {
    sized = rw s.slots v.sized;
    stock = rw s.slots v.stock;
    burning = omega (arith, v.burning, s.burn_time, s.burn_time_max);
    burn_range = omega (arith, v.burn_range, s.burn_time_max);
    cooking = omega (arith, v.cooking, s.cook_time);
  }

  pub checked-IsFurnace :
      (f : FurnaceInventory)
      → IsFurnace f
      → IsFurnace (send_progress_updates (state_check items fd f))
  checked-IsFurnace f v =
      same-IsFurnace (state_check items fd f) _ (send_progress_updates-Same _)
        (state_check-IsFurnace f v)

  -- With a usable item table and usable furnace tables, a tick keeps a furnace's invariant: three
  -- well-formed slots, a burn time up to its maximum, and a cook time up to 185.
  pub tick-IsFurnace : (f : FurnaceInventory) → IsFurnace f → IsFurnace (tick items fd f)
  unfolding tick
  tick-IsFurnace f v = elim (Bool-cases (lt64 0 f.burn_time)) [
    | inr e ↦ rw e v
    | inl e ↦ rw e (
        checked-IsFurnace _ (record {
          sized = v.sized;
          stock = v.stock;
          burning = omega (arith, v.burning);
          burn_range = v.burn_range;
          cooking = ground (arith, v.cooking);
        }))
  ]
