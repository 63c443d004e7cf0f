-- ===== src/Proto/Stable/Loops.antt =====
-- The loops over metadata, offsets and items in src/chunkymonkey/proto/proto.go do not depend on what
-- follows.
use chunkymonkey.Base.{
  ℕ, zero, suc, ◌+◌, ◌*◌, ◌<◌, refl, inl, inr, List, [], ◌∷◌, ◌++◌, arith, ◌==◌, length,
  length-append,
}
use chunkymonkey.Base.Words.{lt16}
use chunkymonkey.Proto.Wire.{Bytes, Received, read_be_loop, read_or}
use chunkymonkey.Proto.Wire.Stable.{Stable, read_string16-Stable, if-Stable, read_with-Stable}
use chunkymonkey.Proto.Event.{
  ExplosionOffsetXyz, WindowSlot, MetadataValue, EntityMetadata, Event, nil, byte_val, int16_val,
  int32_val, float_val, string_val, position_val,
}
use chunkymonkey.Proto.Metadata.{
  read_metadata_value, read_metadata_loop, read_entity_metadata_field,
}
use chunkymonkey.Proto.World.{read_offsets}
use chunkymonkey.Proto.Windows.{read_items}

read_metadata_value-Stable :
    (n : ℕ) (more : Bytes) (kind : ℕ) (field3 : MetadataValue)
    (k l : MetadataValue → Bytes → Received Event)
    → ((v : MetadataValue) → Stable n more (k v) (l v))
    → Stable n more (read_metadata_value kind field3 k) (read_metadata_value kind field3 l)
unfolding read_metadata_value
read_metadata_value-Stable n more kind field3 k l h =
    if-Stable n more (kind == 0) _ _ _ _ (read_with-Stable Event n more _ _ _ (λ b. h (byte_val b)))
      (if-Stable n more (kind == 1) _ _ _ _
        (read_with-Stable Event n more _ _ _ (λ a. h (int16_val a)))
        (if-Stable n more (kind == 2) _ _ _ _
          (read_with-Stable Event n more _ _ _ (λ a. h (int32_val a)))
          (if-Stable n more (kind == 3) _ _ _ _
            (read_with-Stable Event n more _ _ _ (λ a. h (float_val a)))
            (if-Stable n more (kind == 4) _ _ _ _
              (read_string16-Stable n more _ _ (λ s. h (string_val s)))
              (if-Stable n more (kind == 5) _ _ _ _
                (read_with-Stable Event n more _ _ _ (λ x y z. h (position_val x y z)))
                (h field3))))))

-- The fuel is enough both with the bytes behind the stream and without.
read_metadata_loop-Stable :
    (fuel fuel' n : ℕ) (more : Bytes) (field3 : MetadataValue) (items : List EntityMetadata)
    (k l : List EntityMetadata → Bytes → Received Event)
    → n < fuel
    → n < fuel'
    → ((m : ℕ) (items : List EntityMetadata) → Stable m more (k items) (l items))
    → Stable n more
        (read_metadata_loop fuel field3 items k)
        (read_metadata_loop fuel' field3 items l)
unfolding read_metadata_loop read_or read_be_loop
read_metadata_loop-Stable zero fuel' n more field3 items k l lt lt' h bs le = absurd (omega arith)
read_metadata_loop-Stable (suc fuel) zero n more field3 items k l lt lt' h bs le =
    absurd (omega arith)
read_metadata_loop-Stable (suc fuel) (suc fuel') n more field3 items k l lt lt' h [] le = inl refl
read_metadata_loop-Stable (suc fuel) (suc fuel') zero more field3 items k l lt lt' h (b ∷ bs) le =
    absurd (omega arith)
read_metadata_loop-Stable (suc fuel) (suc fuel') (suc n) more field3 items k l lt lt' h (b ∷ bs)
      le =
    if-Stable n more (0 * 256 + b == 127) _ _ _ _ (h n items)
      (read_metadata_value-Stable n more _ field3 _ _
        (λ v. read_metadata_loop-Stable fuel fuel' n more v _ k l (omega arith) (omega arith) h))
      bs (omega arith)

pub read_entity_metadata_field-Stable :
    (n : ℕ) (more : Bytes) (k l : List EntityMetadata → Bytes → Received Event)
    → ((m : ℕ) (items : List EntityMetadata) → Stable m more (k items) (l items))
    → Stable n more (read_entity_metadata_field k) (read_entity_metadata_field l)
unfolding read_entity_metadata_field
read_entity_metadata_field-Stable n more k l h bs le =
    read_metadata_loop-Stable (suc (length bs)) (suc (length (bs ++ more))) (length bs) more nil []
      k l (omega arith) (omega (arith, length-append bs more)) h bs (omega arith)

pub read_offsets-Stable :
    (n : ℕ) (more : Bytes) (size : ℕ) (k l : List ExplosionOffsetXyz → Bytes → Received Event)
    → ((offsets : List ExplosionOffsetXyz) → Stable n more (k offsets) (l offsets))
    → Stable n more (read_offsets size k) (read_offsets size l)
unfolding read_offsets
read_offsets-Stable n more zero k l h = h []
read_offsets-Stable n more (suc size) k l h =
    read_with-Stable Event n more _ _ _
      (λ x y z. read_offsets-Stable n more size _ _ (λ offsets. h (_ ∷ offsets)))

pub read_items-Stable :
    (n : ℕ) (more : Bytes) (size count item_data : ℕ) (items : List WindowSlot)
    (k l : List WindowSlot → Bytes → Received Event)
    → ((items : List WindowSlot) → Stable n more (k items) (l items))
    → Stable n more
        (read_items size count item_data items k)
        (read_items size count item_data items l)
unfolding read_items
read_items-Stable n more zero count item_data items k l h = h items
read_items-Stable n more (suc size) count item_data items k l h =
    read_with-Stable Event n more _ _ _ (λ a.
      if-Stable n more (lt16 0 a) _ _ _ _
        (read_with-Stable Event n more _ _ _ (λ c d. read_items-Stable n more size c d _ k l h))
        (if-Stable n more (a == 0) _ _ _ _ (λ rest le. inr refl)
          (read_items-Stable n more size count item_data _ k l h)))
