-- ===== src/Proto/Reading/Items.antt =====
-- The lists in packets of src/chunkymonkey/proto/proto.go are read back: the items of a window and the
-- blocks of an explosion.
use chunkymonkey.Base.{
  ℕ, ◌≡◌, refl, sym, ap, ◌∙◌, inl, inr, List, [], ◌∷◌, ◌++◌, arith, Bool-cases, length, All,
}
use chunkymonkey.Base.Words.{lt16}
use chunkymonkey.Proto.Wire.{Bytes, Received, InRange, put_fields}
use chunkymonkey.Proto.Wire.ReadsBack.{read_or-put_then, put_fields-append}
use chunkymonkey.Proto.Event.{ExplosionOffsetXyz, WindowSlot, window_slot, Event}
use chunkymonkey.Proto.World.{put_offsets, read_offsets}
use chunkymonkey.Proto.Windows.{put_items, read_items}
use chunkymonkey.Proto.Sent.{IsWindowSlot, items_read}
use mathlib.Core.List.{append_assoc, append-nil}

minus_one-InRange : InRange ((2, 0xffff) ∷ [])
unfolding InRange
minus_one-InRange = omega arith

item_split :
    (slot : WindowSlot) (more : Bytes)
    → put_fields ((2, slot.item_type_id) ∷ (1, slot.count) ∷ (2, slot.item_data) ∷ []) ++ more
      ≡ put_fields ((2, slot.item_type_id) ∷ [])
        ++ (put_fields ((1, slot.count) ∷ (2, slot.item_data) ∷ []) ++ more)
item_split slot more =
    ap (λ (t : Bytes). t ++ more) (put_fields-append ((2, slot.item_type_id) ∷ []) _)
    ∙ append_assoc (put_fields ((2, slot.item_type_id) ∷ [])) _ more

-- A row of items, where `count` and `item_data` are those of the item before.
pub read_items-put :
    (items : List WindowSlot) (count item_data : ℕ) (done : List WindowSlot)
    (k : List WindowSlot → Bytes → Received Event) (rest : Bytes)
    → All IsWindowSlot items
    → read_items (length items) count item_data done k (put_items items ++ rest)
      ≡ k (done ++ items_read count item_data items) rest
unfolding read_items put_items
read_items-put [] count item_data done k rest h =
    ap (λ (t : List WindowSlot). k t rest) (sym (append-nil done))
read_items-put (slot ∷ items) count item_data done k rest h =
    elim (Bool-cases (lt16 0 slot.item_type_id)) [
      | inl item ↦
          rw (item, item_split slot (put_items items))
            (read_or-put_then _ _ _ _ rest h.0.0
              ∙ rw item (read_or-put_then _ _ _ _ rest h.0.1)
              ∙ read_items-put items slot.count slot.item_data (done ++ (slot ∷ [])) k rest h.1
              ∙ ap (λ (t : List WindowSlot). k t rest) (append_assoc done (slot ∷ []) _))
      | inr no_item ↦ rw no_item (
          read_or-put_then _ _ _ _ rest minus_one-InRange
          ∙ read_items-put items count item_data (done ++ (window_slot 0 count item_data ∷ [])) k
              rest h.1
          ∙ ap (λ (t : List WindowSlot). k t rest)
              (append_assoc done (window_slot 0 count item_data ∷ []) _))
    ]

pub read_offsets-put :
    (offsets : List ExplosionOffsetXyz) (k : List ExplosionOffsetXyz → Bytes → Received Event)
    (rest : Bytes)
    → All (λ o. InRange ((1, o.x) ∷ (1, o.y) ∷ (1, o.z) ∷ [])) offsets
    → read_offsets (length offsets) k (put_offsets offsets ++ rest) ≡ k offsets rest
unfolding read_offsets put_offsets
read_offsets-put [] k rest h = refl
read_offsets-put (o ∷ offsets) k rest h =
    read_or-put_then _ _ _ _ rest h.0 ∙ read_offsets-put offsets _ rest h.1
