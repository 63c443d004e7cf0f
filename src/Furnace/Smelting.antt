-- ===== src/Furnace/Smelting.antt =====
-- A lit furnace with a reagent smelts one item every 185 ticks
-- (src/chunkymonkey/gamerules/inv_furnace.go: Tick, stateCheck).
use chunkymonkey.Base.{
  ℕ, zero, suc, ◌+◌, ◌-◌, ◌^◌, ◌≤◌, ◌<◌, ◌≡◌, refl, ap, ◌∙◌, true, some, arith, if◌then◌else◌,
  length, length-set,
}
use chunkymonkey.Base.Words.{lt64}
use chunkymonkey.Slot.{
  Slot, ItemType, ItemTypeMap, max_stack, is_empty, is_same_type, is_compatible, add_one, decrement,
}
use chunkymonkey.Slot.Stock.{IsStock, IsTable}
use chunkymonkey.Slot.Pour.{fit, add_one_lem}
use chunkymonkey.Furnace.{
  FurnaceInventory, FurnaceData, Reaction, slot_of, slot_at, put, is_lit, current_reaction,
  output_ready, ignite, complete, react, state_check, send_progress_updates, tick,
}
use chunkymonkey.Furnace.Steps.{
  slots-put, slot_at-put_self, slot_at-put_ne, SameFurnace, send_progress_updates-Same,
}
use chunkymonkey.Furnace.Invariant.{
  IsFurnaceData, IsFurnace, slot_at-IsStock, created-IsStock, tick-IsFurnace,
}

-- The item that a reaction makes.
abbrev pub product : Reaction → Slot
product rx = record { item_type_id = rx.output; count = 1; item_data = rx.output_data }

fit-product :
    (items : ItemTypeMap) (out : Slot) (rx : Reaction) (t : ItemType)
    → IsStock out
    → 0 < rx.output
    → items rx.output ≡ some t
    → 0 < t.max_stack
    → t.max_stack ≤ 64
    → output_ready items out (some rx) ≡ true
    → fit items out (product rx) ≡ 1
unfolding fit is_compatible is_same_type is_empty max_stack output_ready
fit-product items out rx t v some_output known room small ready = ground arith

-- What smelting one item comes to: one product more, one reagent less, the fuel slot as it was, and
-- the counters ready for the next item.
pub record Smelted (rx : Reaction) (n : ℕ) (f g : FurnaceInventory) : Type 0 where
  pub output : slot_at g 2 ≡ record {
    item_type_id = rx.output;
    count = (slot_at f 2).count + 1;
    item_data = rx.output_data;
  }
  pub reagent : slot_at g 0 ≡ (decrement (slot_at f 0)).0
  pub fuel : slot_at g 1 ≡ slot_at f 1
  pub restarted : g.cook_time ≡ 185
  pub burnt : g.burn_time ≡ f.burn_time - n

-- Running the furnace for a number of ticks.
abbrev pub run : ItemTypeMap → FurnaceData → ℕ → FurnaceInventory → FurnaceInventory
run items fd zero f = f
run items fd (suc n) f = run items fd n (tick items fd f)

lt64_pos : (n : ℕ) → 0 < n → n < 2 ^ 63 → lt64 0 n ≡ true
lt64_pos n h k = ground arith

module _ (items : ItemTypeMap) (fd : FurnaceData) (table : IsTable items)
    (good : IsFurnaceData items fd) where
  -- The output slot after one more product.
  grown :
      (out : Slot) (i : ℕ) (rx : Reaction)
      → IsStock out
      → fd.reactions i ≡ some rx
      → output_ready items out (some rx) ≡ true
      → (add_one items out (product rx)).0
        ≡ record { item_type_id = rx.output; count = out.count + 1; item_data = rx.output_data }
  grown out i rx v e ready =
      let (positive, id_range, data_range, t, known, room) = good.output_known i rx e in
      rw
        (
          add_one_lem items out (product rx) table v (created-IsStock items fd table good i rx e),
          fit-product items out rx t v positive known room (table rx.output t known) ready,
        )
        refl

  waits :
      (f : FurnaceInventory) (rx : Reaction)
      → 0 < f.burn_time
      → f.burn_time < 2 ^ 63
      → 0 < f.cook_time
      → current_reaction fd f ≡ some rx
      → output_ready items (slot_at f 2) (some rx) ≡ true
      → state_check items fd f ≡ f
  unfolding state_check ignite react is_lit
  waits f rx lit range cooking reagent ready = rw (reagent, ready) (ground arith)

  finishes :
      (f : FurnaceInventory) (rx : Reaction)
      → 0 < f.burn_time
      → f.burn_time < 2 ^ 63
      → f.cook_time ≡ 0
      → current_reaction fd f ≡ some rx
      → output_ready items (slot_at f 2) (some rx) ≡ true
      → state_check items fd f ≡ complete items rx f
  unfolding state_check ignite react is_lit
  finishes f rx lit range cooked reagent ready = rw (reagent, ready) (ground arith)

  abbrev counted : FurnaceInventory → FurnaceInventory
  counted f = record f {
    burn_time = f.burn_time - 1;
    cook_time = if lt64 0 f.cook_time then f.cook_time - 1 else f.cook_time;
  }

  lit_tick :
      (f : FurnaceInventory)
      → 0 < f.burn_time
      → f.burn_time < 2 ^ 63
      → tick items fd f ≡ send_progress_updates (state_check items fd (counted f))
  unfolding tick
  lit_tick f lit range = rw (lt64_pos f.burn_time lit range) refl

  -- A tick before the last one only counts.
  tick_waits :
      (f : FurnaceInventory) (rx : Reaction)
      → 1 < f.burn_time
      → f.burn_time < 2 ^ 63
      → 1 < f.cook_time
      → f.cook_time ≤ 185
      → current_reaction fd f ≡ some rx
      → output_ready items (slot_at f 2) (some rx) ≡ true
      → SameFurnace (counted f) (tick items fd f)
  tick_waits f rx lit range cooking most reagent ready =
      rw
        (
          lit_tick f (omega arith) range,
          waits (counted f) rx (omega arith) (omega arith) (ground arith) reagent ready,
        )
        (send_progress_updates-Same (counted f))

  -- The last tick makes the product.
  tick_finishes :
      (f : FurnaceInventory) (rx : Reaction)
      → 1 < f.burn_time
      → f.burn_time < 2 ^ 63
      → f.cook_time ≡ 1
      → current_reaction fd f ≡ some rx
      → output_ready items (slot_at f 2) (some rx) ≡ true
      → SameFurnace (complete items rx (counted f)) (tick items fd f)
  tick_finishes f rx lit range cooking reagent ready =
      rw
        (
          lit_tick f (omega arith) range,
          finishes (counted f) rx (omega arith) (omega arith) (ground arith) reagent ready,
        )
        (send_progress_updates-Same (complete items rx (counted f)))

  made :
      (f : FurnaceInventory) (rx : Reaction)
      → IsFurnace f
      → current_reaction fd f ≡ some rx
      → output_ready items (slot_at f 2) (some rx) ≡ true
      → Smelted rx 0 f (complete items rx f)
  unfolding complete put
  made f rx v reagent ready = record {
    output =
        slot_at-put_ne filled 0 2 _ (omega arith)
        ∙ slot_at-put_self base 2 _ (omega (arith, v.sized))
        ∙ grown (slot_at f 2) _ rx (slot_at-IsStock f 2 v (omega arith)) reagent ready;
    reagent =
        slot_at-put_self filled 0 _ (
          omega (
            arith,
            v.sized,
            ap length (slots-put base 2 grown_output),
            length-set f.inventory.slots 2 grown_output,
          ))
        ∙ ap (λ s. (decrement s).0) (slot_at-put_ne base 2 0 grown_output (omega arith));
    fuel = slot_at-put_ne filled 0 1 _ (omega arith) ∙ slot_at-put_ne base 2 1 _ (omega arith);
    restarted = refl;
    burnt = omega arith;
  }
    where
      base : FurnaceInventory
      base = record f { cook_time = 185 }

      grown_output : Slot
      grown_output = (add_one items (slot_at f 2) (product rx)).0

      filled : FurnaceInventory
      filled = put base 2 grown_output

  -- The furnace after a tick that only counts, seen from before it.
  over_wait :
      (rx : Reaction) (n : ℕ) (f g h : FurnaceInventory)
      → SameFurnace (counted f) g
      → Smelted rx n g h
      → Smelted rx (suc n) f h
  over_wait rx n f g h same m = record {
    output = m.output ∙ ap (λ xs. grown_of (slot_of xs 2)) same.slots;
    reagent = m.reagent ∙ ap (λ xs. (decrement (slot_of xs 0)).0) same.slots;
    fuel = m.fuel ∙ ap (λ xs. slot_of xs 1) same.slots;
    restarted = m.restarted;
    burnt = omega (arith, m.burnt, same.burn_time);
  }
    where
      grown_of : Slot → Slot
      grown_of s = record {
        item_type_id = rx.output;
        count = s.count + 1;
        item_data = rx.output_data;
      }

  after_last :
      (rx : Reaction) (f g : FurnaceInventory)
      → SameFurnace (complete items rx (counted f)) g
      → Smelted rx 0 (counted f) (complete items rx (counted f))
      → Smelted rx 1 f g
  after_last rx f g same m = record {
    output = ap (λ xs. slot_of xs 2) same.slots ∙ m.output;
    reagent = ap (λ xs. slot_of xs 0) same.slots ∙ m.reagent;
    fuel = ap (λ xs. slot_of xs 1) same.slots ∙ m.fuel;
    restarted = same.cook_time ∙ m.restarted;
    burnt = omega (arith, m.burnt, same.burn_time);
  }

  counted-IsFurnace : (f : FurnaceInventory) → IsFurnace f → IsFurnace (counted f)
  counted-IsFurnace f v = record {
    sized = v.sized;
    stock = v.stock;
    burning = omega (arith, v.burning);
    burn_range = v.burn_range;
    cooking = ground (arith, v.cooking);
  }

  -- With usable tables, a well-formed furnace that has n + 1 ticks left to cook and will burn for longer,
  -- whose reagent has a reaction that the output slot has room for, has after n + 1 ticks one item of
  -- the product more in the output slot and one reagent less; the fuel slot is as it was, n + 1 ticks
  -- of fire are used, and the next item begins at 185 ticks.
  pub smelts :
      (n : ℕ) (f : FurnaceInventory) (rx : Reaction)
      → IsFurnace f
      → suc n < f.burn_time
      → f.cook_time ≡ suc n
      → current_reaction fd f ≡ some rx
      → output_ready items (slot_at f 2) (some rx) ≡ true
      → Smelted rx (suc n) f (run items fd (suc n) f)
  smelts zero f rx v lit cooking reagent ready =
      after_last rx f (tick items fd f)
        (tick_finishes f rx (omega arith) (omega (arith, v.burning, v.burn_range)) (omega arith)
          reagent ready)
        (made (counted f) rx (counted-IsFurnace f v) reagent ready)
  smelts (suc n) f rx v lit cooking reagent ready =
      let same =
        tick_waits f rx (omega arith) (omega (arith, v.burning, v.burn_range)) (omega arith)
          v.cooking reagent ready in
      over_wait rx (suc n) f (tick items fd f) _ same (
        smelts n (tick items fd f) rx (tick-IsFurnace items fd table good f v)
          (omega (arith, same.burn_time)) (same.cook_time ∙ ground arith)
          (ap (λ xs. fd.reactions (slot_of xs 0).item_type_id) same.slots ∙ reagent)
          (ap (λ xs. output_ready items (slot_of xs 2) (some rx)) same.slots ∙ ready))
