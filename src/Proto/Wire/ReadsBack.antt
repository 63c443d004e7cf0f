-- ===== src/Proto/Wire/ReadsBack.antt =====
-- Fields, arrays and strings are read back as they were written.
use chunkymonkey.Base.{
  ℕ, zero, suc, ◌+◌, ◌-◌, ◌*◌, ◌/◌, ◌%◌, ◌^◌, ◌<◌, ◌≡◌, refl, sym, ap, ◌∙◌, List, [], ◌∷◌, ◌++◌,
  arith, length, ltb, if◌then◌else◌, All,
}
use mathlib.Core.List.{append_assoc, append-nil}
use native.Mathlib.Nat.{
  pow-suc, one-le-pow, mod-lt, mod-eq_of_lt, mul-add-mod_self_left, div-add-mod,
}
use chunkymonkey.Proto.Wire.{
  Bytes, Received, failed, eof, Fields, InRange, Then, apply, widths, put_be, put_fields, put_array,
  decode_utf8, write_string16, read_be_loop, read_or, read_array_or, read_array, read_string16,
}

-- The number of `w + 1` low bytes is its high byte and the number of the `w` lower ones.
high_byte : (w n : ℕ) → n / 256 ^ w % 256 * 256 ^ w + n % 256 ^ w ≡ n % 256 ^ suc w
high_byte w n = sym (
    ap (λ (t : ℕ). t % 256 ^ suc w) (split_number (256 ^ w) (pow-suc 256 w))
    ∙ mul-add-mod_self_left (256 ^ suc w) (n / 256 ^ w / 256)
        (n / 256 ^ w % 256 * 256 ^ w + n % 256 ^ w)
    ∙ mod-eq_of_lt
        (below (256 ^ w) (pow-suc 256 w) (mod-lt n {m = 256 ^ w} (one-le-pow w 256 (omega arith)))))
  where
    split_number :
        (p : ℕ)
        → 256 ^ suc w ≡ p * 256
        → n ≡ 256 ^ suc w * (n / p / 256) + (n / p % 256 * p + n % p)
    split_number p e = omega (
      arith,
      div-add-mod n p,
      ap (λ (t : ℕ). t * (n / p / 256)) e,
      ap (λ (t : ℕ). p * t) (div-add-mod (n / p) 256),
    )

    spare : {r : ℕ} → r < 256 → r + (255 - r) + 1 ≡ 256
    spare lt = omega arith

    below : (p : ℕ) → 256 ^ suc w ≡ p * 256 → n % p < p → n / p % 256 * p + n % p < 256 ^ suc w
    below p e lt = omega (
      arith,
      e,
      lt,
      mod-lt (n / p) {m = 256} (omega arith),
      ap (λ (t : ℕ). t * p) (spare (mod-lt (n / p) {m = 256} (omega arith))),
    )

module _ {ℓ} {E : Type ℓ} (stop : Received E) where
  read_be_loop-put :
      (w acc n : ℕ) (k : ℕ → Bytes → Received E) (rest : Bytes)
      → read_be_loop stop w acc k (put_be w n ++ rest) ≡ k (acc * 256 ^ w + n % 256 ^ w) rest
  unfolding put_be read_be_loop
  read_be_loop-put zero acc n k rest = ap (λ (t : ℕ). k t rest) (omega arith)
  read_be_loop-put (suc w) acc n k rest =
      read_be_loop-put w (acc * 256 + n / 256 ^ w % 256) n k rest
      ∙ ap (λ (t : ℕ). k t rest)
          (omega (arith, high_byte w n, ap (λ (t : ℕ). acc * t) (pow-suc 256 w)))

  read_be-put :
      (w n : ℕ) (k : ℕ → Bytes → Received E) (rest : Bytes)
      → n < 256 ^ w
      → read_be_loop stop w 0 k (put_be w n ++ rest) ≡ k n rest
  read_be-put w n k rest h =
      read_be_loop-put w 0 n k rest ∙ ap (λ (t : ℕ). k t rest) (omega (arith, mod-eq_of_lt h))

  pub read_or-put :
      (fs : Fields) (k : Then (widths fs) (Bytes → Received E)) (rest : Bytes)
      → InRange fs
      → read_or stop (widths fs) k (put_fields fs ++ rest) ≡ apply fs k rest
  unfolding read_or put_fields InRange
  read_or-put [] k rest h = refl
  read_or-put ((w, a) ∷ []) k rest h =
      ap (λ (t : Bytes). read_or stop (w ∷ []) k (t ++ rest)) (append-nil (put_be w a))
      ∙ read_be-put w a k rest h
  read_or-put ((w, a) ∷ b ∷ more) k rest h =
      ap (read_or stop (widths ((w, a) ∷ b ∷ more)) k)
        (append_assoc (put_be w a) (put_fields (b ∷ more)) rest)
      ∙ read_be-put w a (λ x. read_or stop (widths (b ∷ more)) (k x))
          (put_fields (b ∷ more) ++ rest) h.0
      ∙ read_or-put (b ∷ more) (k a) rest h.1

  pub read_array_or-put :
      (w : ℕ) (xs : List ℕ) (k : List ℕ → Bytes → Received E) (rest : Bytes)
      → All (λ x. x < 256 ^ w) xs
      → read_array_or stop w (length xs) k (put_array w xs ++ rest) ≡ k xs rest
  unfolding read_array_or put_array
  read_array_or-put w [] k rest h = refl
  read_array_or-put w (x ∷ xs) k rest h =
      ap (read_array_or stop w (length (x ∷ xs)) k)
        (append_assoc (put_be w x) (put_array w xs) rest)
      ∙ read_be-put w x (λ a. read_array_or stop w (length xs) (λ more. k (a ∷ more)))
          (put_array w xs ++ rest) h.0
      ∙ read_array_or-put w xs (λ more. k (x ∷ more)) rest h.1

-- A string of at most 65535 code points, each of 16 bits.
abbrev pub IsString16 : List ℕ → Type 0
IsString16 s = (length s < 2 ^ 16) × All (λ cp. cp < 256 ^ 2) s

decode_utf8_id : (s : List ℕ) → All (λ cp. cp < 256 ^ 2) s → decode_utf8 s ≡ s
decode_utf8_id [] h = refl
decode_utf8_id (cp ∷ s) h =
    ap (λ (x : ℕ). x ∷ decode_utf8 s) (keep h.0)
    ∙ ap (λ (t : List ℕ). cp ∷ t) (decode_utf8_id s h.1)
  where
    keep : cp < 256 ^ 2 → (if ltb 0xffff cp then 0xfffd else cp) ≡ cp
    keep lt = ground arith

module _ {ℓ} {E : Type ℓ} where
  pub read_string16-write :
      (s : List ℕ) (k : List ℕ → Bytes → Received E) (rest : Bytes)
      → IsString16 s
      → read_string16 k (write_string16 s ++ rest) ≡ k s rest
  unfolding read_string16 write_string16 read_or
  read_string16-write s k rest h =
      ap (λ (t : List ℕ). read_string16 k ((put_be 2 (length t) ++ put_array 2 t) ++ rest))
        (decode_utf8_id s h.1)
      ∙ ap (read_string16 k) (append_assoc (put_be 2 (length s)) (put_array 2 s) rest)
      ∙ read_be-put (failed [] eof) 2 (length s) (λ n. read_array 2 n k) (put_array 2 s ++ rest) h.0
      ∙ read_array_or-put (failed [] eof) 2 s k rest h.1

  -- The same where something else was written after it, before the rest of the stream.
  pub read_or-put_then :
      (stop : Received E) (fs : Fields) (k : Then (widths fs) (Bytes → Received E))
      (next rest : Bytes)
      → InRange fs
      → read_or stop (widths fs) k ((put_fields fs ++ next) ++ rest) ≡ apply fs k (next ++ rest)
  read_or-put_then stop fs k next rest h =
      ap (read_or stop (widths fs) k) (append_assoc (put_fields fs) next rest)
      ∙ read_or-put stop fs k (next ++ rest) h

  pub read_string16-write_then :
      (s : List ℕ) (k : List ℕ → Bytes → Received E) (next rest : Bytes)
      → IsString16 s
      → read_string16 k ((write_string16 s ++ next) ++ rest) ≡ k s (next ++ rest)
  read_string16-write_then s k next rest h =
      ap (read_string16 k) (append_assoc (write_string16 s) next rest)
      ∙ read_string16-write s k (next ++ rest) h

pub put_fields-append : (fs gs : Fields) → put_fields (fs ++ gs) ≡ put_fields fs ++ put_fields gs
unfolding put_fields
put_fields-append [] gs = refl
put_fields-append ((w, a) ∷ fs) gs =
    ap (λ (t : Bytes). put_be w a ++ t) (put_fields-append fs gs)
    ∙ sym (append_assoc (put_be w a) (put_fields fs) (put_fields gs))

-- Fields at the start of the second struct may as well stand at the end of the first.
pub put_fields-regroup :
    (fs gs hs : Fields)
    → put_fields fs ++ put_fields (gs ++ hs) ≡ put_fields (fs ++ gs) ++ put_fields hs
put_fields-regroup fs gs hs =
    ap (λ (t : Bytes). put_fields fs ++ t) (put_fields-append gs hs)
    ∙ sym (append_assoc (put_fields fs) (put_fields gs) (put_fields hs))
    ∙ ap (λ (t : Bytes). t ++ put_fields hs) (sym (put_fields-append fs gs))
