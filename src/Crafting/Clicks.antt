-- ===== src/Crafting/Clicks.antt =====
-- What a click on a crafting inventory comes to (src/chunkymonkey/gamerules/inv_crafting.go: Click).
use chunkymonkey.Base.{
  length-le_of_none, ℕ, suc, ◌^◌, All, subst, ◌+◌, ◌-◌, ◌<◌, ◌≡◌, refl, sym, ap, ◌∙◌, arith, Bool,
  true, false, Option, none, some, List, [], ◌∷◌, ◌==◌, ==_iff, ◌⊎◌, if◌then◌else◌, inl, inr,
  Bool-cases, get_elem?, set, map, length,
}
use mathlib.Core.Option.{get_or}
use chunkymonkey.Slot.{empty_slot, equals, Slot, ItemTypeMap, decrement, add_whole}
use chunkymonkey.Inventory.{
  Inventory, Click, TxState, accepted, rejected, Update, exchange, init, notify, store,
}
use chunkymonkey.Inventory
use chunkymonkey.Inventory.Clicks.{
  is_refused, slots-notify, slots-store, click_cases, take_only_click_cases,
}
use chunkymonkey.Recipe.Lookup.{match_recipe-total}
use chunkymonkey.Recipe.Hashing.{IsRecipe}
use chunkymonkey.Recipe.{Recipe, init_recipes, RecipeSet, match_recipe}
use chunkymonkey.Crafting.{
  CraftingInventory, grid_match, use_inputs, consume, set_output, resume, click,
}

abbrev pub used : List Slot → List Slot
used ss = map (λ s. (decrement s).0) ss

use_inputs-used : (i : ℕ) (ss : List Slot) → (use_inputs i ss).0 ≡ used ss
unfolding use_inputs
use_inputs-used i [] = refl
use_inputs-used i (s ∷ ss) = ap (λ xs. (decrement s).0 ∷ xs) (use_inputs-used (i + 1) ss)

-- What an accepted click leaves: `grid` is the grid, and the output is what is crafted from it.
pub record Crafted (recipes : RecipeSet) (ci : CraftingInventory) (grid : List Slot)
    (ci' : CraftingInventory) : Type 0 where
  pub made : Slot
  pub slots : ci'.inventory.slots ≡ made ∷ grid
  pub matched : match_recipe recipes ci.width ci.height grid ≡ some made
  pub same_width : ci'.width ≡ ci.width
  pub same_height : ci'.height ≡ ci.height

-- The slot of the grid that is clicked, of a click that lies inside.
abbrev pub clicked : Click → List Slot → Slot
clicked c inputs = get_or (get_elem? inputs (c.slot_id - 1)) empty_slot

-- The grid and the cursor after an accepted click on an inventory of these slots.
abbrev pub grid_after : ItemTypeMap → Click → Slot → List Slot → List Slot
grid_after items c output inputs =
    if c.slot_id == 0
    then used inputs
    else set inputs (c.slot_id - 1) (exchange items c.right_click (clicked c inputs) c.cursor).0

abbrev pub cursor_after : ItemTypeMap → Click → Slot → List Slot → Slot
cursor_after items c output inputs =
    if c.slot_id == 0
    then (add_whole items c.cursor output).0
    else (exchange items c.right_click (clicked c inputs) c.cursor).1

-- The click is on one of the slots, and what it expects there is right or wrong.
abbrev pub Expects : Bool → Click → List Slot → Type 0
Expects right c slots =
    (s : Slot) × (get_elem? slots c.slot_id ≡ some s) × (equals c.expected_slot s ≡ right)

-- What a click returns: a panic just past the end; a rejection that changes nothing further out or with
-- a wrong expectation; a new grid with a right one. The conditions exclude each other.
abbrev pub Crafts :
    ItemTypeMap
    → RecipeSet
    → CraftingInventory
    → Click
    → Slot
    → List Slot
    → Option (CraftingInventory × Click × TxState)
    → Type 0
Crafts items recipes ci c output inputs none = c.slot_id ≡ suc (length inputs)
Crafts items recipes ci c output inputs (some (ci', c', tx)) =
    (((suc (length inputs) < c.slot_id) ⊎ Expects false c (output ∷ inputs))
      × (tx ≡ rejected)
      × (ci' ≡ ci)
      × (c' ≡ c))
    ⊎ (Expects true c (output ∷ inputs)
        × (tx ≡ accepted)
        × (c'.cursor ≡ cursor_after items c output inputs)
        × Crafted recipes ci (grid_after items c output inputs) ci')

set_output-Crafted :
    (recipes : RecipeSet) (ci : CraftingInventory) (inv : Inventory) (output : Slot)
    (grid : List Slot) (made : Slot)
    → inv.slots ≡ output ∷ grid
    → match_recipe recipes ci.width ci.height grid ≡ some made
    → (ci' : CraftingInventory) × (set_output recipes ci inv ≡ some ci')
      × Crafted recipes ci grid ci'
unfolding set_output
set_output-Crafted recipes ci inv output grid made e m = (
  record ci { inventory = store inv 0 made },
  rw (ap (grid_match recipes ci) e ∙ m, set_output) refl,
  record {
    made = made;
    slots = slots-store inv 0 made ∙ ap (λ xs. set xs 0 made) e;
    matched = m;
    same_width = refl;
    same_height = refl;
  },
)

consume-used :
    (inv : Inventory) (output : Slot) (inputs : List Slot)
    → inv.slots ≡ output ∷ inputs
    → (consume true inv).slots ≡ output ∷ used inputs
unfolding consume
consume-used inv output inputs e =
    rw (e, consume) (slots-notify _ _ ∙ ap (λ xs. output ∷ xs) (use_inputs-used 1 inputs))

head_is :
    (xs : List Slot) (i : ℕ) (inputs : List Slot) (output s : Slot)
    → xs ≡ output ∷ inputs
    → i ≡ 0
    → get_elem? xs i ≡ some s
    → s ≡ output
head_is xs i inputs output s e z g =
    let there : some output ≡ some s =
      ap (get_elem? (output ∷ inputs)) (sym z) ∙ ap (λ ys. get_elem? ys i) (sym e) ∙ g in
    cc

tail_is :
    (xs : List Slot) (i k : ℕ) (inputs : List Slot) (output s : Slot)
    → xs ≡ output ∷ inputs
    → i ≡ suc k
    → get_elem? xs i ≡ some s
    → get_or (get_elem? inputs k) empty_slot ≡ s
tail_is xs i k inputs output s e z g =
    let there : get_elem? inputs k ≡ some s =
      ap (get_elem? (output ∷ inputs)) (sym z) ∙ ap (λ ys. get_elem? ys i) (sym e) ∙ g in
    rw there refl

expects :
    (right : Bool) (xs : List Slot) (c : Click) (inputs : List Slot) (output s : Slot)
    → xs ≡ output ∷ inputs
    → get_elem? xs c.slot_id ≡ some s
    → equals c.expected_slot s ≡ right
    → Expects right c (output ∷ inputs)
expects right xs c inputs output s e g q = (s, ap (λ ys. get_elem? ys c.slot_id) (sym e) ∙ g, q)

module _ (items : ItemTypeMap) (recipes : List Recipe) (known : All IsRecipe recipes) where
  -- The part of a click after the inventory's own click was accepted.
  finish :
      (ci : CraftingInventory) (c c' : Click) (inv : Inventory) (output out' : Slot)
      (inputs grid : List Slot) (b : Bool)
      → 0 < ci.width
      → 0 < ci.height
      → Expects true c (output ∷ inputs)
      → (consume b inv).slots ≡ out' ∷ grid
      → c'.cursor ≡ cursor_after items c output inputs
      → grid ≡ grid_after items c output inputs
      → Crafts items
          (init_recipes recipes)
          ci
          c
          output
          inputs
          (resume (init_recipes recipes) ci b (some (inv, c', accepted)))
  unfolding resume
  finish ci c c' inv output out' inputs grid b wide high hit e hand left =
      let (made, m) = match_recipe-total recipes ci.width ci.height grid known wide high in
      let (ci', set, crafted) =
        set_output-Crafted (init_recipes recipes) ci (consume b inv) out' grid made e m in
      rw set
        (inr (hit, refl, hand, subst (λ g. Crafted (init_recipes recipes) ci g ci') left crafted))

  module _ (ci : CraftingInventory) (c : Click) (output : Slot) (inputs : List Slot)
      (e : ci.inventory.slots ≡ output ∷ inputs) (range : c.slot_id < 2 ^ 16)
      (short : length inputs < 2 ^ 15 - 1) (wide : 0 < ci.width) (high : 0 < ci.height) where
    fault_lem :
        is_refused ci.inventory c ≡ false
        → get_elem? ci.inventory.slots c.slot_id ≡ none
        → c.slot_id ≡ suc (length inputs)
    fault_lem q g =
        let past = length-le_of_none ci.inventory.slots c.slot_id g in
        let size : length ci.inventory.slots ≡ suc (length inputs) = ap length e in ground arith

    refused_lem : is_refused ci.inventory c ≡ true → suc (length inputs) < c.slot_id
    refused_lem q =
        let size : length ci.inventory.slots ≡ suc (length inputs) = ap length e in ground arith

    on_output :
        c.slot_id ≡ 0
        → Crafts items
            (init_recipes recipes)
            ci
            c
            output
            inputs
            (resume (init_recipes recipes) ci true (Inventory.take_only_click items ci.inventory c))
    unfolding resume
    on_output z =
        take_only_click_cases
          (λ r.
            Crafts items (init_recipes recipes) ci c output inputs
              (resume (init_recipes recipes) ci true r))
          items ci.inventory c (λ q. inl (inl (refused_lem q), refl, refl, refl)) fault_lem
          (λ s g q. inl (inr (expects false _ c inputs output s e g q), refl, refl, refl))
          λ s g q.
            finish ci c _ (store ci.inventory c.slot_id (add_whole items c.cursor s).1) output
              (add_whole items c.cursor s).1 inputs (used inputs) true wide high
              (expects true _ c inputs output s e g q)
              (consume-used _ _ inputs (
                slots-store ci.inventory c.slot_id _
                ∙ ap (λ xs. set xs c.slot_id (add_whole items c.cursor s).1) e
                ∙ ap (λ i. set (output ∷ inputs) i (add_whole items c.cursor s).1) z))
              (rw (z, head_is ci.inventory.slots c.slot_id inputs output s e z g) refl) (rw z refl)

    on_grid :
        (k : ℕ)
        → c.slot_id ≡ suc k
        → Crafts items
            (init_recipes recipes)
            ci
            c
            output
            inputs
            (resume (init_recipes recipes) ci false (Inventory.click items ci.inventory c))
    unfolding resume consume
    on_grid k z =
        let off_output : (c.slot_id == 0) ≡ false = ground arith in
        let at_k : c.slot_id - 1 ≡ k = omega arith in
        click_cases
          (λ r.
            Crafts items (init_recipes recipes) ci c output inputs
              (resume (init_recipes recipes) ci false r))
          items ci.inventory c (λ q. inl (inl (refused_lem q), refl, refl, refl)) fault_lem
          (λ s g q. inl (inr (expects false _ c inputs output s e g q), refl, refl, refl))
          λ s g q.
            let r = exchange items c.right_click s c.cursor in
            let below = tail_is ci.inventory.slots c.slot_id k inputs output s e z g in
            finish ci c _ (store ci.inventory c.slot_id r.0) output output inputs (set inputs k r.0)
              false wide high (expects true _ c inputs output s e g q)
              (slots-store ci.inventory c.slot_id r.0
                ∙ ap (λ xs. set xs c.slot_id r.0) e
                ∙ ap (λ i. set (output ∷ inputs) i r.0) z)
              (rw (off_output, at_k, below) refl) (rw (off_output, at_k, below) refl)

  -- For recipes whose input fills their rectangle, a click with an int16 slot identifier on a crafting
  -- inventory, whose slots are an output and a grid of at least one row and column and fewer than
  -- 2 ^ 15 - 1 slots, panics exactly just past the last slot. On a
  -- negative slot, on one further out, or with a wrong expectation of what lies in the slot, it is
  -- rejected and changes nothing. On any slot of which it expects what lies there it is accepted: then
  -- a click on the output takes it whole into the cursor if it fits, and takes one item from every
  -- input whether it fits or not; any other click does to the grid and the cursor what a click of the
  -- inventory does; and the output becomes what the recipes make of the new grid.
  pub click-Crafts :
      (ci : CraftingInventory) (c : Click) (output : Slot) (inputs : List Slot)
      → ci.inventory.slots ≡ output ∷ inputs
      → c.slot_id < 2 ^ 16
      → length inputs < 2 ^ 15 - 1
      → 0 < ci.width
      → 0 < ci.height
      → Crafts items
          (init_recipes recipes)
          ci
          c
          output
          inputs
          (click items (init_recipes recipes) ci c)
  unfolding click
  click-Crafts ci c output inputs e range short wide high = elim (Bool-cases (c.slot_id == 0)) [
    | inl z ↦ rw z (on_output ci c output inputs e range short wide high ((==_iff _ _).0 z))
    | inr z ↦
        rw z (on_grid ci c output inputs e range short wide high (c.slot_id - 1) (ground arith))
  ]
