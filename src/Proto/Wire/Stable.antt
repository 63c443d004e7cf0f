-- ===== src/Proto/Wire/Stable.antt =====
-- What a reader of src/chunkymonkey/proto/proto.go makes of a stream does not change when more is
-- received behind it.
use chunkymonkey.Base.{
  ℕ, zero, suc, ◌+◌, ◌*◌, ◌≤◌, ◌≡◌, refl, ◌⊎◌, inl, Bool, true, false, List, [], ◌∷◌, ◌++◌, arith,
  if◌then◌else◌, length,
}
use chunkymonkey.Proto.Wire.{
  Bytes, Received, Then, read_be_loop, read_or, read_array_or, read_with, read_array, read_string16,
  eof, received, failed,
}

-- A relation of what two readers do with the values, whatever they are.
abbrev pub BothThen {ℓ} :
    {R : Type ℓ} → (R → R → Type ℓ) → (ws : List ℕ) → Then ws R → Then ws R → Type ℓ
BothThen P [] k l = P k l
BothThen P (w ∷ ws) k l = (a : ℕ) → BothThen P ws (k a) (l a)

module _ {ℓ} {E : Type ℓ} where
  -- A result on a stream, and that on the same stream with `more` behind it: the same calls with
  -- `more` left, or the same error, unless the stream was at its end.
  abbrev pub Extends : Bytes → Received E → Received E → Type ℓ
  Extends more (received es rest) s = s ≡ received es (rest ++ more)
  Extends more (failed es e) s = (e ≡ eof) ⊎ (s ≡ failed es e)

  -- Two readers on streams of at most `n` bytes, and these with `more` behind them.
  abbrev pub Stable : ℕ → Bytes → (Bytes → Received E) → (Bytes → Received E) → Type ℓ
  Stable n more f g = (bs : Bytes) → length bs ≤ n → Extends more (f bs) (g (bs ++ more))

  module _ (stop : Received E) (n : ℕ) (more : Bytes)
      (stopped : (s : Received E) → Extends more stop s) where
    read_be_loop-Stable :
        (w acc : ℕ) (k l : ℕ → Bytes → Received E)
        → ((a : ℕ) → Stable n more (k a) (l a))
        → Stable n more (read_be_loop stop w acc k) (read_be_loop stop w acc l)
    unfolding read_be_loop
    read_be_loop-Stable zero acc k l h bs le = h acc bs le
    read_be_loop-Stable (suc w) acc k l h [] le = stopped _
    read_be_loop-Stable (suc w) acc k l h (b ∷ bs) le =
        read_be_loop-Stable w (acc * 256 + b) k l h bs (omega arith)

    pub read_or-Stable :
        (ws : List ℕ) (k l : Then ws (Bytes → Received E))
        → BothThen (Stable n more) ws k l
        → Stable n more (read_or stop ws k) (read_or stop ws l)
    unfolding read_or
    read_or-Stable [] k l h = h
    read_or-Stable (w ∷ ws) k l h =
        read_be_loop-Stable w 0 _ _ (λ a. read_or-Stable ws (k a) (l a) (h a))

    pub read_array_or-Stable :
        (w size : ℕ) (k l : List ℕ → Bytes → Received E)
        → ((xs : List ℕ) → Stable n more (k xs) (l xs))
        → Stable n more (read_array_or stop w size k) (read_array_or stop w size l)
    unfolding read_array_or
    read_array_or-Stable w zero k l h = h []
    read_array_or-Stable w (suc size) k l h =
        read_be_loop-Stable w 0 _ _ (λ a. read_array_or-Stable w size _ _ (λ xs. h (a ∷ xs)))

  pub read_array-Stable :
      (n : ℕ) (more : Bytes) (w size : ℕ) (k l : List ℕ → Bytes → Received E)
      → ((xs : List ℕ) → Stable n more (k xs) (l xs))
      → Stable n more (read_array w size k) (read_array w size l)
  read_array-Stable n more = read_array_or-Stable (failed [] eof) n more (λ s. inl refl)

  pub read_string16-Stable :
      (n : ℕ) (more : Bytes) (k l : List ℕ → Bytes → Received E)
      → ((s : List ℕ) → Stable n more (k s) (l s))
      → Stable n more (read_string16 k) (read_string16 l)
  unfolding read_string16
  read_string16-Stable n more k l h =
      read_or-Stable (failed [] eof) n more (λ s. inl refl) (2 ∷ []) (λ size. read_array 2 size k)
        (λ size. read_array 2 size l) (λ size. read_array-Stable n more 2 size k l h)

  pub if-Stable :
      (n : ℕ) (more : Bytes) (c : Bool) (f g f' g' : Bytes → Received E)
      → Stable n more f f'
      → Stable n more g g'
      → Stable n more (if c then f else g) (if c then f' else g')
  if-Stable n more true f g f' g' h k = h
  if-Stable n more false f g f' g' h k = k

  pub if-Extends :
      (more : Bytes) (c : Bool) (r s r' s' : Received E)
      → Extends more r r'
      → Extends more s s'
      → Extends more (if c then r else s) (if c then r' else s')
  if-Extends more true r s r' s' h k = h
  if-Extends more false r s r' s' h k = k

pub read_with-Stable {ℓ} :
    (E : Type ℓ) (n : ℕ) (more : Bytes) (ws : List ℕ) (k l : Then ws (Bytes → Received E))
    → BothThen (Stable n more) ws k l
    → Stable n more (read_with ws k) (read_with ws l)
read_with-Stable E n more = read_or-Stable (failed [] eof) n more (λ s. inl refl)
