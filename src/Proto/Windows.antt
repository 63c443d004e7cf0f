-- ===== src/Proto/Windows.antt =====
-- Packets of src/chunkymonkey/proto/proto.go about windows, slots and signs.
use chunkymonkey.Base.{ℕ, zero, suc, Bool, List, [], ◌∷◌, ◌++◌, ◌==◌, if◌then◌else◌, length}
use chunkymonkey.Base.Words.{u8, u16, lt16}
use chunkymonkey.Coords.{BlockXyz}
use chunkymonkey.Proto.Wire.{
  Bytes, Received, put_fields, put_array, write_string16, read_with, read_array, read_string16,
  invalid_item_id, panic, received, failed,
}
use chunkymonkey.Proto.Ids.{
  packet_id_window_open, packet_id_window_close, packet_id_window_click, packet_id_window_set_slot,
  packet_id_window_items, packet_id_window_progress_bar, packet_id_window_transaction,
  packet_id_quickbar_slot_update, packet_id_sign_update, packet_id_item_data,
}
use chunkymonkey.Proto.Event.{
  WindowSlot, block_xyz, window_slot, Event, bool_to_byte, byte_to_bool, packet_window_transaction,
  packet_sign_update, packet_window_close, packet_window_click, packet_window_open,
  packet_window_set_slot, packet_window_items, packet_window_progress_bar,
  packet_quickbar_slot_update, packet_item_data,
}

unfoldable pub write_window_close : ℕ → Bytes
write_window_close window_id = packet_id_window_close ∷ put_fields ((1, window_id) ∷ [])

unfoldable pub read_window_close : Bytes → Received Event
read_window_close =
    read_with (1 ∷ []) (λ window_id rest. received (packet_window_close window_id ∷ []) rest)

unfoldable pub write_window_progress_bar : ℕ → ℕ → ℕ → Bytes
write_window_progress_bar window_id prg_bar_id value =
    packet_id_window_progress_bar ∷ put_fields ((1, window_id) ∷ (2, prg_bar_id) ∷ (2, value) ∷ [])

unfoldable pub read_window_progress_bar : Bytes → Received Event
read_window_progress_bar = read_with (1 ∷ 2 ∷ 2 ∷ []) (λ window_id prg_bar_id value rest.
    received (packet_window_progress_bar window_id prg_bar_id value ∷ []) rest)

unfoldable pub write_window_transaction : ℕ → ℕ → Bool → Bytes
write_window_transaction window_id tx_id accepted =
    packet_id_window_transaction
    ∷ put_fields ((1, window_id) ∷ (2, tx_id) ∷ (1, bool_to_byte accepted) ∷ [])

unfoldable pub read_window_transaction : Bytes → Received Event
read_window_transaction = read_with (1 ∷ 2 ∷ 1 ∷ []) (λ window_id tx_id accepted rest.
    received (packet_window_transaction window_id tx_id (byte_to_bool accepted) ∷ []) rest)

unfoldable pub write_quickbar_slot_update : ℕ → ℕ → ℕ → ℕ → Bytes
write_quickbar_slot_update slot item_id count item_data =
    packet_id_quickbar_slot_update
    ∷ put_fields ((2, slot) ∷ (2, item_id) ∷ (1, count) ∷ (2, item_data) ∷ [])

unfoldable pub read_quickbar_slot_update : Bytes → Received Event
read_quickbar_slot_update = read_with (2 ∷ 2 ∷ 1 ∷ 2 ∷ []) (λ slot item_id count item_data rest.
    received (packet_quickbar_slot_update slot item_id count item_data ∷ []) rest)

unfoldable pub write_window_open : ℕ → ℕ → List ℕ → ℕ → Bytes
write_window_open window_id inv_type_id window_title num_slots =
    packet_id_window_open
    ∷ (put_fields ((1, window_id) ∷ (1, inv_type_id) ∷ [])
        ++ (write_string16 window_title ++ put_fields ((1, num_slots) ∷ [])))

unfoldable pub read_window_open : Bytes → Received Event
read_window_open = read_with (1 ∷ 1 ∷ []) (λ window_id inv_type_id. read_string16 (λ window_title.
    read_with (1 ∷ []) (λ num_slots rest.
      received (packet_window_open window_id inv_type_id window_title num_slots ∷ []) rest)))

unfoldable pub write_window_click : ℕ → ℕ → Bool → ℕ → Bool → WindowSlot → Bytes
write_window_click window_id slot right_click tx_id shift_click expected_slot =
    packet_id_window_click
    ∷ (put_fields (
          (1, window_id)
          ∷ (2, slot)
          ∷ (1, bool_to_byte right_click)
          ∷ (2, tx_id)
          ∷ (1, bool_to_byte shift_click)
          ∷ (2, expected_slot.item_type_id)
          ∷ [])
        ++ (if expected_slot.item_type_id == 0xffff
            then []
            else put_fields ((1, expected_slot.count) ∷ (2, expected_slot.item_data) ∷ [])))

unfoldable pub read_window_click : Bytes → Received Event
read_window_click =
    read_with (1 ∷ 2 ∷ 1 ∷ 2 ∷ 1 ∷ 2 ∷ [])
      (λ window_id slot right_click tx_id shift_click item_type_id.
        let call = λ (amount item_data : ℕ).
          packet_window_click window_id slot (byte_to_bool right_click) tx_id
            (byte_to_bool shift_click) (window_slot item_type_id amount item_data) in
        if item_type_id == 0xffff
        then (λ rest. received (call 0 0 ∷ []) rest)
        else read_with (1 ∷ 2 ∷ [])
            (λ amount item_data rest. received (call amount item_data ∷ []) rest))

-- An item, or the type -1 in its place where the type is not positive.
abbrev pub put_item_fields : ℕ → ℕ → ℕ → Bytes
put_item_fields item_type_id amount item_data =
    if lt16 0 item_type_id
    then put_fields ((2, item_type_id) ∷ (1, amount) ∷ (2, item_data) ∷ [])
    else put_fields ((2, 0xffff) ∷ [])

unfoldable pub write_window_set_slot : ℕ → ℕ → ℕ → ℕ → ℕ → Bytes
write_window_set_slot window_id slot item_type_id amount item_data =
    packet_id_window_set_slot
    ∷ (put_fields ((1, window_id) ∷ (2, slot) ∷ [])
        ++ put_item_fields item_type_id amount item_data)

-- The null item is 0 inside the program.
unfoldable pub read_window_set_slot : Bytes → Received Event
read_window_set_slot = read_with (1 ∷ 2 ∷ 2 ∷ []) (λ window_id slot item_type_id.
    if item_type_id == 0xffff
    then (λ rest. received (packet_window_set_slot window_id slot 0 0 0 ∷ []) rest)
    else read_with (1 ∷ 2 ∷ []) (λ amount item_data rest.
      received (packet_window_set_slot window_id slot item_type_id amount item_data ∷ []) rest))

unfoldable pub put_items : List WindowSlot → Bytes
put_items [] = []
put_items (slot ∷ items) =
    put_item_fields slot.item_type_id slot.count slot.item_data ++ put_items items

unfoldable pub write_window_items : ℕ → List WindowSlot → Bytes
write_window_items window_id items =
    packet_id_window_items
    ∷ (put_fields ((1, window_id) ∷ (2, u16 (length items)) ∷ []) ++ put_items items)

-- `count` and `item_data` hold what was read for the last item; a null item does not reset them.
unfoldable pub read_items :
    ℕ
    → ℕ
    → ℕ
    → List WindowSlot
    → (List WindowSlot → Bytes → Received Event)
    → Bytes
    → Received Event
read_items zero count item_data items k = k items
read_items (suc n) count item_data items k = read_with (2 ∷ []) (λ item_type_id.
    if lt16 0 item_type_id
    then read_with (1 ∷ 2 ∷ [])
        (λ c d. read_items n c d (items ++ (window_slot item_type_id c d ∷ [])) k)
    else if item_type_id == 0
    then (λ rest. failed [] invalid_item_id)
    else read_items n count item_data (items ++ (window_slot 0 count item_data ∷ [])) k)

unfoldable pub read_window_items : Bytes → Received Event
read_window_items = read_with (1 ∷ 2 ∷ []) (λ window_id count.
    if lt16 count 0
    then (λ rest. failed [] panic)
    else read_items count 0 0 []
        (λ items rest. received (packet_window_items window_id items ∷ []) rest))

unfoldable pub write_sign_update : BlockXyz → List ℕ → List ℕ → List ℕ → List ℕ → Bytes
write_sign_update position line0 line1 line2 line3 =
    packet_id_sign_update
    ∷ (put_fields ((4, position.x) ∷ (1, position.y) ∷ (4, position.z) ∷ [])
        ++ (write_string16 line0
            ++ (write_string16 line1 ++ (write_string16 line2 ++ write_string16 line3))))

unfoldable pub read_sign_update : Bytes → Received Event
read_sign_update = read_with (4 ∷ 1 ∷ 4 ∷ []) (λ x y z. read_string16 (λ line0.
    read_string16 (λ line1. read_string16 (λ line2. read_string16 (λ line3 rest.
      received (packet_sign_update (block_xyz x y z) line0 line1 line2 line3 ∷ []) rest)))))

unfoldable pub write_item_data : ℕ → ℕ → Bytes → Bytes
write_item_data item_type_id item_data_id item_bytes =
    packet_id_item_data
    ∷ (put_fields ((2, item_type_id) ∷ (2, item_data_id) ∷ (1, u8 (length item_bytes)) ∷ [])
        ++ put_array 1 item_bytes)

unfoldable pub read_item_data : Bytes → Received Event
read_item_data = read_with (2 ∷ 2 ∷ 1 ∷ []) (λ item_type_id item_data_id data_length.
    read_array 1 data_length (λ item_bytes rest.
      received (packet_item_data item_type_id item_data_id item_bytes ∷ []) rest))
