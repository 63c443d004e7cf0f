-- ===== src/Proto/Wire/Shrinks.antt =====
-- What the readers of src/chunkymonkey/proto/proto.go share that never lengthen the stream, run on
-- without end, or call the handler before they fail.
-- What goes on with the values satisfies `P`, whatever they are.
use chunkymonkey.Base.{
  ◌≡◌, refl, ℕ, zero, suc, ◌+◌, ◌*◌, ◌≤◌, ◌≢◌, Bool, true, false, List, [], ◌∷◌, arith,
  if◌then◌else◌, length,
}
use chunkymonkey.Proto.Wire.{
  Bytes, Received, Then, read_be_loop, read_or, read_array_or, read_with, read_array, read_string16,
  eof, out_of_fuel, received, failed,
}

abbrev pub AllThen {ℓ} : {R : Type ℓ} → (R → Type 0) → (ws : List ℕ) → Then ws R → Type 0
AllThen P [] k = P k
AllThen P (w ∷ ws) k = (a : ℕ) → AllThen P ws (k a)

eof_ends : eof ≢ out_of_fuel
eof_ends e = cc

module _ {ℓ} {E : Type ℓ} where
  -- At most `n` bytes are left, or the read failed, but not for a loop without an end, nor with calls
  -- already made.
  abbrev pub Within : ℕ → Received E → Type 0
  Within n (received es rest) = length rest ≤ n
  Within n (failed es e) = (e ≢ out_of_fuel) × (length es ≡ 0)

  -- A stream of at most `n` bytes is left no longer.
  abbrev pub Consumes : ℕ → (Bytes → Received E) → Type 0
  Consumes n g = (bs : Bytes) → length bs ≤ n → Within n (g bs)

  pub Within-mono : (m n : ℕ) (r : Received E) → m ≤ n → Within m r → Within n r
  Within-mono m n (received es rest) le h = omega arith
  Within-mono m n (failed es e) le h = h

  module _ (stop : Received E) (n : ℕ) (stopped : Within n stop) where
    read_be_loop-Consumes :
        (w acc : ℕ) (k : ℕ → Bytes → Received E)
        → ((a : ℕ) → Consumes n (k a))
        → Consumes n (read_be_loop stop w acc k)
    unfolding read_be_loop
    read_be_loop-Consumes zero acc k h bs le = h acc bs le
    read_be_loop-Consumes (suc w) acc k h [] le = stopped
    read_be_loop-Consumes (suc w) acc k h (b ∷ bs) le =
        read_be_loop-Consumes w (acc * 256 + b) k h bs (omega arith)

    pub read_or-Consumes :
        (ws : List ℕ) (k : Then ws (Bytes → Received E))
        → AllThen (Consumes n) ws k
        → Consumes n (read_or stop ws k)
    unfolding read_or
    read_or-Consumes [] k h = h
    read_or-Consumes (w ∷ ws) k h =
        read_be_loop-Consumes w 0 _ (λ a. read_or-Consumes ws (k a) (h a))

    pub read_array_or-Consumes :
        (w size : ℕ) (k : List ℕ → Bytes → Received E)
        → ((xs : List ℕ) → Consumes n (k xs))
        → Consumes n (read_array_or stop w size k)
    unfolding read_array_or
    read_array_or-Consumes w zero k h = h []
    read_array_or-Consumes w (suc size) k h =
        read_be_loop-Consumes w 0 _ (λ a. read_array_or-Consumes w size _ (λ more. h (a ∷ more)))

  pub read_array-Consumes :
      (n w size : ℕ) (k : List ℕ → Bytes → Received E)
      → ((xs : List ℕ) → Consumes n (k xs))
      → Consumes n (read_array w size k)
  read_array-Consumes n = read_array_or-Consumes (failed [] eof) n (eof_ends, refl)

  pub read_string16-Consumes :
      (n : ℕ) (k : List ℕ → Bytes → Received E)
      → ((s : List ℕ) → Consumes n (k s))
      → Consumes n (read_string16 k)
  unfolding read_string16
  read_string16-Consumes n k h =
      read_or-Consumes (failed [] eof) n (eof_ends, refl) (2 ∷ []) (λ size. read_array 2 size k)
        (λ size. read_array-Consumes n 2 size k h)

  pub if-Consumes :
      (n : ℕ) (c : Bool) (f g : Bytes → Received E)
      → Consumes n f
      → Consumes n g
      → Consumes n (if c then f else g)
  if-Consumes n true f g h k = h
  if-Consumes n false f g h k = k

  pub if-Within :
      (n : ℕ) (c : Bool) (r s : Received E)
      → Within n r
      → Within n s
      → Within n (if c then r else s)
  if-Within n true r s h k = h
  if-Within n false r s h k = k

pub read_with-Consumes {ℓ} :
    (E : Type ℓ) (n : ℕ) (ws : List ℕ) (k : Then ws (Bytes → Received E))
    → AllThen (Consumes n) ws k
    → Consumes n (read_with ws k)
read_with-Consumes E n = read_or-Consumes (failed [] eof) n (eof_ends, refl)
