-- ===== src/Window/Routing.antt =====
-- Where a window's click goes (src/chunkymonkey/window/window.go: Init, Click).
use chunkymonkey.Base.{
  ℕ, ◌+◌, ◌-◌, ◌^◌, ◌≤◌, ◌<◌, ◌≡◌, refl, ap, ◌∙◌, arith, true, false, Option, none, some, List, [],
  ◌∷◌, ◌++◌, map,
}
use chunkymonkey.Base.Words.{u16, le16}
use chunkymonkey.Inventory.{Click, TxState}
use chunkymonkey.Window.{
  IInventory, InventoryView, Window, init_view, init_views, init_window, click_view, is_inside,
  click_views, click_window,
}

module _ {ℓ} {A : Type ℓ} (ops : IInventory A) where
  -- The slots of several inventories.
  abbrev pub total : List A → ℕ
  total [] = 0
  total (inv ∷ invs) = ops.num_slots inv + total invs

  abbrev pub inventories : List (InventoryView A) → List A
  inventories views = map (λ view. view.inventory) views

  abbrev pub subscribed : List A → List A
  subscribed invs = map (λ inv. ops.set_subscriber inv true) invs

  -- A row of inventories with the result of a click on one of them put in its place.
  abbrev pub spliced :
      List A → List A → Click → Option (A × Click × TxState) → Option (List A × Click × TxState)
  spliced before after c none = none
  spliced before after c (some (inv, c', tx)) =
      some (before ++ inv ∷ after, record c { cursor = c'.cursor }, tx)

  abbrev pub shown :
      Option (List (InventoryView A) × Click × TxState) → Option (List A × Click × TxState)
  shown none = none
  shown (some (views, c, tx)) = some (inventories views, c, tx)

  inventories-init_views :
      (s : ℕ) (invs : List A) → inventories (init_views ops s invs).0 ≡ subscribed invs
  unfolding init_views init_view
  inventories-init_views s [] = refl
  inventories-init_views s (inv ∷ invs) =
      ap (λ xs. ops.set_subscriber inv true ∷ xs)
        (inventories-init_views (u16 (s + ops.num_slots inv)) invs)

  inside_lem :
      (view : InventoryView A) (views : List (InventoryView A)) (c : Click)
      → is_inside ops view c ≡ true
      → shown (click_views ops (view ∷ views) c)
        ≡ spliced [] (inventories views) c (
            ops.click view.inventory
              (record c { slot_id = u16 (c.slot_id + 2 ^ 16 - view.start_slot) }))
  unfolding click_views click_view
  inside_lem view views c e =
      rw (e, click_views)
        (go (
          ops.click view.inventory
            (record c { slot_id = u16 (c.slot_id + 2 ^ 16 - view.start_slot) })))
    where
      go :
          (r : Option (A × Click × TxState))
          → (let clicked : Option (InventoryView A × Click × TxState) = elim r [
            | none ↦ none
            | some (inv, c', tx) ↦
                some (record view { inventory = inv }, record c { cursor = c'.cursor }, tx)
          ] in
              shown (elim clicked [
                | none ↦ none
                | some (view', c', tx) ↦ some (view' ∷ views, c', tx)
              ]))
            ≡ spliced [] (inventories views) c r
      go none = refl
      go (some (inv, c', tx)) = refl

  -- A result of the later views, with an earlier one in front.
  abbrev after_view : A → Option (List A × Click × TxState) → Option (List A × Click × TxState)
  after_view inv none = none
  after_view inv (some (invs, c, tx)) = some (inv ∷ invs, c, tx)

  outside_lem :
      (view : InventoryView A) (views : List (InventoryView A)) (c : Click)
      → is_inside ops view c ≡ false
      → shown (click_views ops (view ∷ views) c)
        ≡ after_view view.inventory (shown (click_views ops views c))
  unfolding click_views
  outside_lem view views c e = rw (e, click_views) (go (click_views ops views c))
    where
      go :
          (r : Option (List (InventoryView A) × Click × TxState))
          → shown (elim r [ none ↦ none | some (views', c', tx) ↦ some (view ∷ views', c', tx) ])
            ≡ after_view view.inventory (shown r)
      go none = refl
      go (some (views', c', tx)) = refl

  after_view-spliced :
      (inv : A) (before after : List A) (c : Click) (r : Option (A × Click × TxState))
      → after_view inv (spliced before after c r) ≡ spliced (inv ∷ before) after c r
  after_view-spliced inv before after c none = refl
  after_view-spliced inv before after c (some (inv', c', tx)) = refl

  -- The click that an inventory sees whose slots begin at `offset`.
  abbrev pub local_click : A → Click → ℕ → Option (A × Click × TxState)
  local_click inv c offset =
      ops.click (ops.set_subscriber inv true) (record c { slot_id = c.slot_id - offset })

  total-append :
      (before : List A) (inv : A) (after : List A)
      → total (before ++ inv ∷ after) ≡ total before + ops.num_slots inv + total after
  total-append [] inv after = omega arith
  total-append (p ∷ before) inv after = omega (arith, total-append before inv after)

  click_views-spliced :
      (s : ℕ) (before : List A) (inv : A) (after : List A) (c : Click)
      → s + total (before ++ inv ∷ after) < 2 ^ 15
      → s + total before ≤ c.slot_id
      → c.slot_id < s + total before + ops.num_slots inv
      → shown (click_views ops (init_views ops s (before ++ inv ∷ after)).0 c)
        ≡ spliced (subscribed before) (subscribed after) c (local_click inv c (s + total before))
  unfolding init_views init_view
  click_views-spliced s [] inv after c short low high =
      inside_lem _ _ c (ground arith)
      ∙ ap
          (λ i.
            spliced [] (inventories (init_views ops (u16 (s + ops.num_slots inv)) after).0) c
              (ops.click (ops.set_subscriber inv true) (record c { slot_id = i })))
          (omega arith)
      ∙ ap (λ xs. spliced [] xs c (local_click inv c (s + 0)))
          (inventories-init_views (u16 (s + ops.num_slots inv)) after)
  click_views-spliced s (p ∷ before) inv after c short low high =
      outside_lem _ _ c (ground (arith, total-append before inv after))
      ∙ ap (λ r. after_view (ops.set_subscriber p true) r)
          (click_views-spliced (u16 (s + ops.num_slots p)) before inv after c
            (omega (arith, total-append before inv after))
            (omega (arith, total-append before inv after))
            (omega (arith, total-append before inv after)))
      ∙ after_view-spliced _ (subscribed before) _ c _
      ∙ ap (λ o. spliced (subscribed (p ∷ before)) (subscribed after) c (local_click inv c o))
          (omega (arith, total-append before inv after))

  -- The inventories that a click on a window leaves.
  abbrev pub revealed : Option (Window A × Click × TxState) → Option (List A × Click × TxState)
  revealed none = none
  revealed (some (w, c, tx)) = some (inventories w.views, c, tx)

  reveal-views :
      (w : Window A) (r : Option (List (InventoryView A) × Click × TxState))
      → revealed (elim r [
        | none ↦ none
        | some (views, c', tx) ↦ some (record w { views = views }, c', tx)
      ])
        ≡ shown r
  reveal-views w none = refl
  reveal-views w (some (views, c', tx)) = refl

  -- In a window on any row of inventories with fewer than 2 ^ 15 slots together, a click on a slot that
  -- falls into one of them is that inventory's click on its own slot: it alone changes, and the cursor
  -- and the answer are the ones that it returns. A panic of it is a panic of the window.
  pub click_window-spliced :
      (window_id inv_type_id : ℕ) (before : List A) (inv : A) (after : List A) (c : Click)
      → total (before ++ inv ∷ after) < 2 ^ 15
      → total before ≤ c.slot_id
      → c.slot_id < total before + ops.num_slots inv
      → revealed
          (click_window ops (init_window ops window_id inv_type_id (before ++ inv ∷ after)) c)
        ≡ spliced (subscribed before) (subscribed after) c (local_click inv c (total before))
  unfolding click_window init_window
  click_window-spliced window_id inv_type_id before inv after c short low high =
      let range : le16 0 c.slot_id ≡ true = ground (arith, total-append before inv after) in
      rw range (
        reveal-views (init_window ops window_id inv_type_id (before ++ inv ∷ after))
          (click_views ops (init_views ops 0 (before ++ inv ∷ after)).0 c)
        ∙ click_views-spliced 0 before inv after c (omega arith) (omega arith) (omega arith)
        ∙ ap (λ o. spliced (subscribed before) (subscribed after) c (local_click inv c o))
            (omega arith))
