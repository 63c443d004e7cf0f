-- ===== src/Furnace/Tests.antt =====
-- A concrete furnace, and the theorems at it.
use chunkymonkey.Base.{
  ℕ, ◌<◌, ◌≡◌, refl, true, none, some, [], ◌∷◌, arith, ◌==◌, ◌^◌, if◌then◌else◌,
}
use chunkymonkey.Slot.{ItemType}
use chunkymonkey.Slot.Tests.{planks, table, table-IsTable, stack, doors}
use chunkymonkey.Inventory.{init}
use chunkymonkey.Inventory.Tests.{click_at}
use chunkymonkey.Furnace.{
  FurnaceInventory, FurnaceData, Reaction, new_furnace_inventory, tick, click, output_ready,
}
use chunkymonkey.Furnace.Invariant.{IsFurnaceData, IsFurnace, tick-IsFurnace}
use chunkymonkey.Furnace.Clicking.{Clicked, click-Clicked}
use chunkymonkey.Furnace.Smelting.{Smelted, run, smelts}

-- Planks burn for 300 ticks; a door is smelted into a plank.
abbrev furnace_data : FurnaceData
furnace_data = record {
  fuels = λ i. if i == 5 then some 300 else none;
  reactions = λ i. if i == 324 then some (record { output = 5; output_data = 0 }) else none;
}

only :
    (i : ℕ) (rx : Reaction)
    → furnace_data.reactions i ≡ some rx
    → (rx.output ≡ 5) × (rx.output_data ≡ 0)
only i rx e = ground arith

furnace_data-IsFurnaceData : IsFurnaceData table furnace_data
furnace_data-IsFurnaceData = record { fuel_burns = λ i t e. ground arith; output_known = known }
  where
    known :
        (i : ℕ) (rx : Reaction)
        → furnace_data.reactions i ≡ some rx
        → (0 < rx.output)
          × (rx.output < 2 ^ 16)
          × (rx.output_data < 2 ^ 16)
          × (t : ItemType) × (table rx.output ≡ some t)
          × (0 < t.max_stack)
    known i rx e =
        let (made, plain) = only i rx e in
        (
          omega (arith, made),
          omega (arith, made),
          omega (arith, plain),
          planks,
          rw made refl,
          omega arith,
        )

abbrev burning : FurnaceInventory
burning = record {
  inventory = record { slots = doors ∷ stack 3 ∷ stack 7 ∷ []; has_subscriber = true; sent = [] };
  burn_time_max = 300;
  burn_time = 200;
  cook_time = 2;
  last_cur_fuel = 0;
  last_reaction_remaining = 0;
  ticks_since_update = 0;
}

burning-IsFurnace : IsFurnace burning
burning-IsFurnace = record {
  sized = refl;
  stock = omega arith;
  burning = omega arith;
  burn_range = omega arith;
  cooking = omega arith;
}

new-IsFurnace : IsFurnace new_furnace_inventory
unfolding new_furnace_inventory init
new-IsFurnace = record {
  sized = refl;
  stock = omega arith;
  burning = omega arith;
  burn_range = omega arith;
  cooking = omega arith;
}

tick-IsFurnace_example : IsFurnace (tick table furnace_data burning)
tick-IsFurnace_example =
    tick-IsFurnace table furnace_data table-IsTable furnace_data-IsFurnaceData burning
      burning-IsFurnace

click-Clicked_example : Clicked (click table furnace_data burning (click_at 1 (stack 2) (stack 3)))
click-Clicked_example =
    click-Clicked table furnace_data table-IsTable furnace_data-IsFurnaceData burning
      (click_at 1 (stack 2) (stack 3)) burning-IsFurnace (omega arith)

smelts_example :
    Smelted (record { output = 5; output_data = 0 }) 2 burning (run table furnace_data 2 burning)
unfolding output_ready
smelts_example =
    smelts table furnace_data table-IsTable furnace_data-IsFurnaceData 1 burning
      (record { output = 5; output_data = 0 }) burning-IsFurnace (omega arith) refl refl refl
