-- ===== src/Proto/Metadata/ReadsBack.antt =====
-- Metadata is read back but for the kinds of its entries.
use chunkymonkey.Base.{
  ℕ, zero, suc, ◌+◌, ◌*◌, ◌/◌, ◌≤◌, ◌<◌, ◌≡◌, refl, sym, ap, ◌∙◌, ◌≢◌, Option, none, some, List, [],
  ◌∷◌, ◌++◌, map, arith, ne→==, length, length-append, All,
}
use chunkymonkey.Proto.Wire.{
  Bytes, Received, InRange, put_fields, write_string16, read_be_loop, read_or, eof, failed,
}
use chunkymonkey.Proto.Wire.ReadsBack.{read_or-put, read_string16-write}
use chunkymonkey.Proto.Event.{
  MetadataValue, EntityMetadata, nil, byte_val, int16_val, int32_val, float_val, string_val,
  position_val,
}
use chunkymonkey.Proto.Metadata.{
  then_write, write_metadata_value, entry_type, write_entity_metadata_field, entry_read,
  read_metadata_value, read_metadata_loop, read_entity_metadata_field,
}
use chunkymonkey.Proto.Sent.{IsValue, IsEntry, without_kind}
use mathlib.Core.List.{append_assoc, append-nil}

then_write-some :
    (a b : Option Bytes) (bs : Bytes)
    → then_write a b ≡ some bs
    → (x : Bytes) × (y : Bytes) × (a ≡ some x) × (b ≡ some y) × (bs ≡ x ++ y)
then_write-some (some x) (some y) bs e = (x, y, refl, refl, cc)
then_write-some (some x) none bs e = cc
then_write-some none b bs e = cc

pub then_write-start :
    (x : Bytes) (b : Option Bytes) (bs : Bytes)
    → then_write (some x) b ≡ some bs
    → (y : Bytes) × (b ≡ some y) × (bs ≡ x ++ y)
then_write-start x (some y) bs e = (y, refl, cc)
then_write-start x none bs e = cc

entries_written :
    (item : EntityMetadata) (items : List EntityMetadata) (bs : Bytes)
    → write_entity_metadata_field (item ∷ items) ≡ some bs
    → (value : Bytes) × (more : Bytes) × (write_metadata_value item.field1 item.field3 ≡ some value)
      × (write_entity_metadata_field items ≡ some more)
      × (bs ≡ entry_type item ∷ (value ++ more))
unfolding write_entity_metadata_field
entries_written item items bs e =
    let (entry, after, e0, e1, e2) =
      then_write-some (some (entry_type item ∷ []))
        (then_write (write_metadata_value item.field1 item.field3)
          (write_entity_metadata_field items))
        bs e in
    let (value, more, e3, e4, e5) =
      then_write-some (write_metadata_value item.field1 item.field3)
        (write_entity_metadata_field items) after e1 in
    (value, more, e3, e4, cc)

-- Every entry takes a byte at least.
entry_bytes :
    (items : List EntityMetadata) (bs : Bytes)
    → write_entity_metadata_field items ≡ some bs
    → length items ≤ length bs
entry_bytes [] bs e = omega arith
entry_bytes (item ∷ items) bs e =
    let (value, more, has_value, has_more, eq) = entries_written item items bs e in
    omega (arith, ap length eq, length-append value more, entry_bytes items more has_more)

-- The type byte gives the kind and the key back.
kind_le : (kind : ℕ) (v : MetadataValue) → IsValue kind v → kind ≤ 4
kind_le kind nil h = absurd h
kind_le kind (byte_val b) h = omega arith
kind_le kind (int16_val n) h = omega arith
kind_le kind (int32_val n) h = omega arith
kind_le kind (float_val n) h = omega arith
kind_le kind (string_val s) h = omega arith
kind_le kind (position_val x y z) h = absurd h

entry_kind : (item : EntityMetadata) → item.field1 ≤ 4 → entry_type item / 32 ≡ item.field1
entry_kind item h = omega arith

entry_read_lem :
    (item : EntityMetadata) → entry_read (entry_type item) item.field3 ≡ without_kind item
entry_read_lem item = ap with_key (omega arith)
  where
    with_key : ℕ → EntityMetadata
    with_key key = record { field1 = 0; field2 = key; field3 = item.field3 }

module _ {ℓ} {E : Type ℓ} where
  value_read :
      (kind : ℕ) (v before : MetadataValue) (bs : Bytes) (k : MetadataValue → Bytes → Received E)
      (rest : Bytes)
      → write_metadata_value kind v ≡ some bs
      → IsValue kind v
      → read_metadata_value kind before k (bs ++ rest) ≡ k v rest
  unfolding read_metadata_value InRange
  value_read kind (byte_val b) before bs k rest e h =
      rw (written, h.0) (read_or-put (failed [] eof) ((1, b) ∷ []) (λ b. k (byte_val b)) rest h.1)
    where
      written : bs ≡ put_fields ((1, b) ∷ [])
      written = ground arith
  value_read kind (string_val s) before bs k rest e h =
      rw (written, h.0) (read_string16-write s (λ s. k (string_val s)) rest h.1)
    where
      written : bs ≡ write_string16 s
      written = ground arith
  value_read kind (int16_val n) before bs k rest e h =
      rw (written, h.0) (read_or-put (failed [] eof) ((2, n) ∷ []) (λ n. k (int16_val n)) rest h.1)
    where
      written : bs ≡ put_fields ((2, n) ∷ [])
      written = ground arith
  value_read kind (int32_val n) before bs k rest e h =
      rw (written, h.0) (read_or-put (failed [] eof) ((4, n) ∷ []) (λ n. k (int32_val n)) rest h.1)
    where
      written : bs ≡ put_fields ((4, n) ∷ [])
      written = ground arith
  value_read kind (float_val n) before bs k rest e h =
      rw (written, h.0) (read_or-put (failed [] eof) ((4, n) ∷ []) (λ n. k (float_val n)) rest h.1)
    where
      written : bs ≡ put_fields ((4, n) ∷ [])
      written = ground arith
  value_read kind nil before bs k rest e h = absurd h
  value_read kind (position_val x y z) before bs k rest e h = absurd h

  -- A round of the loop at a type byte other than the end mark.
  loop_step :
      (fuel : ℕ) (before : MetadataValue) (done : List EntityMetadata)
      (k : List EntityMetadata → Bytes → Received E) (entry : ℕ) (bs : Bytes)
      → entry ≢ 127
      → read_metadata_loop (suc fuel) before done k (entry ∷ bs)
        ≡ read_metadata_value
            (entry / 32)
            before
            (λ v. read_metadata_loop fuel v (done ++ (entry_read entry v ∷ [])) k)
            bs
  unfolding read_metadata_loop read_or read_be_loop
  loop_step fuel before done k entry bs h = rw (zero_plus entry, ne→== entry 127 h)
    where
      zero_plus : (n : ℕ) → 0 * 256 + n ≡ n
      zero_plus n = omega arith

  pub loop_reads :
      (fuel : ℕ) (items : List EntityMetadata) (bs : Bytes) (before : MetadataValue)
      (done : List EntityMetadata) (k : List EntityMetadata → Bytes → Received E) (rest : Bytes)
      → length items < fuel
      → write_entity_metadata_field items ≡ some bs
      → All IsEntry items
      → read_metadata_loop fuel before done k (bs ++ rest) ≡ k (done ++ map without_kind items) rest
  unfolding write_entity_metadata_field read_metadata_loop read_or read_be_loop
  loop_reads zero items bs before done k rest lt e h = absurd (omega arith)
  loop_reads (suc fuel) [] bs before done k rest lt e h =
      ap (λ (t : Bytes). read_metadata_loop (suc fuel) before done k (t ++ rest)) written
      ∙ ap (λ (t : List EntityMetadata). k t rest) (sym (append-nil done))
    where
      written : bs ≡ 127 ∷ []
      written = cc
  loop_reads (suc fuel) (item ∷ items) bs before done k rest lt e h =
      let (value, more, has_value, has_more, eq) = entries_written item items bs e in
      let next = λ (v : MetadataValue).
        read_metadata_loop fuel v (done ++ (entry_read (entry_type item) v ∷ [])) k in
      ap (λ (t : Bytes). read_metadata_loop (suc fuel) before done k (t ++ rest)) eq
      ∙ loop_step fuel before done k (entry_type item) ((value ++ more) ++ rest) h.0.1
      ∙ ap (read_metadata_value (entry_type item / 32) before next) (append_assoc value more rest)
      ∙ ap (λ (kind : ℕ). read_metadata_value kind before next (value ++ (more ++ rest)))
          (entry_kind item (kind_le item.field1 item.field3 h.0.0))
      ∙ value_read item.field1 item.field3 before value next (more ++ rest) has_value h.0.0
      ∙ loop_reads fuel items more item.field3 _ k rest (omega arith) has_more h.1
      ∙ ap (λ (t : List EntityMetadata). k t rest)
          (append_assoc done (entry_read (entry_type item) item.field3 ∷ [])
              (map without_kind items)
            ∙ ap (λ (x : EntityMetadata). done ++ (x ∷ map without_kind items))
                (entry_read_lem item))

  pub read_entity_metadata_field-write :
      (items : List EntityMetadata) (bs : Bytes) (k : List EntityMetadata → Bytes → Received E)
      (rest : Bytes)
      → write_entity_metadata_field items ≡ some bs
      → All IsEntry items
      → read_entity_metadata_field k (bs ++ rest) ≡ k (map without_kind items) rest
  unfolding read_entity_metadata_field
  read_entity_metadata_field-write items bs k rest e h =
      loop_reads (suc (length (bs ++ rest))) items bs nil [] k rest
        (omega (arith, length-append bs rest, entry_bytes items bs e)) e h
