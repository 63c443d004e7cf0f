-- ===== src/Proto/Wire.antt =====
-- What src/chunkymonkey/proto/proto.go reads and writes with encoding/binary: big-endian structs and
-- arrays, and 16-bit strings. A stream is the list of the bytes that are still to be read. Every field
-- is the bit pattern of its value, that of a floating point number too; a string is the list of its
-- code points.
pub mod ReadsBack
pub mod Shrinks
pub mod Stable
use chunkymonkey.Base.{
  ℕ, zero, suc, ◌+◌, ◌*◌, ◌/◌, ◌%◌, ◌^◌, ◌<◌, Bool, true, false, List, [], ◌∷◌, ◌++◌, length, ltb,
  if◌then◌else◌,
}

abbrev pub Bytes : Type 0
Bytes = List ℕ

-- Why a read of a packet, or of NBT, stops. `panic` is a run-time panic: an array of negative
-- length, or a handler that panics. `closed` is a connection that was closed on this side. `out_of_fuel` stands for a loop that goes on for longer than its fuel, as no reader of packets
-- does.
pub data Error : Type 0 where
  eof : Error
  unexpected_packet_id : ℕ → Error
  unknown_packet_id : ℕ → Error
  unsupported_version : ℕ → Error
  illegal_char : Error
  color_tag_end : Error
  invalid_item_id : Error
  invalid_tag_type : ℕ → Error
  root_name : Error
  end_at_top : Error
  no_compound : Error
  panic : Error
  closed : Error
  out_of_fuel : Error

-- What a reader did: the calls that it made of its handler, with the rest of the stream or an error.
pub data Received {ℓ} (E : Type ℓ) : Type ℓ where
  received : List E → Bytes → Received E
  failed : List E → Error → Received E

-- A struct as it is written: every field with its number of bytes.
abbrev pub Fields : Type 0
Fields = List (ℕ × ℕ)

abbrev pub widths : Fields → List ℕ
widths [] = []
widths ((w, a) ∷ more) = w ∷ widths more

unfoldable pub InRange : Fields → Type 0
InRange [] = Unit
InRange ((w, a) ∷ []) = a < 256 ^ w
InRange ((w, a) ∷ b ∷ more) = (a < 256 ^ w) × InRange (b ∷ more)

-- A number of `w` bytes; a larger one loses its high bytes, as in a conversion.
unfoldable pub put_be : ℕ → ℕ → Bytes
put_be zero n = []
put_be (suc w) n = (n / 256 ^ w % 256) ∷ put_be w n

unfoldable pub put_fields : Fields → Bytes
put_fields [] = []
put_fields ((w, a) ∷ more) = put_be w a ++ put_fields more

unfoldable pub put_array : ℕ → List ℕ → Bytes
put_array w [] = []
put_array w (a ∷ more) = put_be w a ++ put_array w more

-- Only code points up to 0xffff are encoded.
abbrev pub decode_utf8 : List ℕ → List ℕ
decode_utf8 [] = []
decode_utf8 (cp ∷ s) = (if ltb 0xffff cp then 0xfffd else cp) ∷ decode_utf8 s

unfoldable pub write_string16 : List ℕ → Bytes
write_string16 s = put_be 2 (length (decode_utf8 s)) ++ put_array 2 (decode_utf8 s)

-- What goes on with the values of fields of `ws` bytes.
abbrev pub Then {ℓ} : List ℕ → Type ℓ → Type ℓ
Then [] R = R
Then (w ∷ ws) R = ℕ → Then ws R

abbrev pub apply {ℓ} : {R : Type ℓ} (fs : Fields) → Then (widths fs) R → R
apply [] k = k
apply ((w, a) ∷ more) k = apply more (k a)

module _ {ℓ} {E : Type ℓ} where
  -- Reading goes on with `k`, or stops with `stop` where the stream ends.
  unfoldable pub read_be_loop : Received E → ℕ → ℕ → (ℕ → Bytes → Received E) → Bytes → Received E
  read_be_loop stop zero acc k bs = k acc bs
  read_be_loop stop (suc w) acc k [] = stop
  read_be_loop stop (suc w) acc k (b ∷ bs) = read_be_loop stop w (acc * 256 + b) k bs

  unfoldable pub read_or :
      Received E → (ws : List ℕ) → Then ws (Bytes → Received E) → Bytes → Received E
  read_or stop [] k bs = k bs
  read_or stop (w ∷ ws) k bs = read_be_loop stop w 0 (λ a. read_or stop ws (k a)) bs

  unfoldable pub read_array_or :
      Received E → ℕ → ℕ → (List ℕ → Bytes → Received E) → Bytes → Received E
  read_array_or stop w zero k bs = k [] bs
  read_array_or stop w (suc n) k bs =
      read_be_loop stop w 0 (λ a. read_array_or stop w n (λ more. k (a ∷ more))) bs

  abbrev pub read_with : (ws : List ℕ) → Then ws (Bytes → Received E) → Bytes → Received E
  read_with ws k bs = read_or (failed [] eof) ws k bs

  abbrev pub read_array : ℕ → ℕ → (List ℕ → Bytes → Received E) → Bytes → Received E
  read_array w n k bs = read_array_or (failed [] eof) w n k bs

  unfoldable pub read_string16 : (List ℕ → Bytes → Received E) → Bytes → Received E
  read_string16 k bs = read_with (2 ∷ []) (λ n. read_array 2 n k) bs
