-- ===== src/Base/Bits.antt =====
-- Laws of the bit operations at variables, from the digit recursion that they stand for.
use Prim.Native.Nat.{
  ℕ, zero, suc, ◌+◌, ◌-◌, ◌*◌, ◌/◌, ◌%◌, ◌^◌, ◌≤◌, ◌<◌, min, max, differ, bit_and, bit_or, bit_xor,
  digits, bitwise, bit_and-bitwise, bit_or-bitwise, bit_xor-bitwise,
}
use mathlib.Core.Path.{◌≡◌, refl, sym, ap, ◌∙◌}
use native.Mathlib.Omega.{arith}
use native.Mathlib.Nat.{
  pow-suc, one-le-pow, mod-lt, mod-eq_of_lt, mul-add-mod_self_left, div-add-mod,
}

module _ (z : ℕ → ℕ) (f : ℕ → ℕ → ℕ) where
  at_zero : (m a b : ℕ) → a ≡ 0 → digits z f m a b ≡ z b
  at_zero zero a b e = ap (λ x. digits z f 0 x b) e
  at_zero (suc m) a b e = ap (λ x. digits z f (suc m) x b) e

  -- Steps beyond the size of the first argument change nothing.
  spare_steps : (n m a b : ℕ) → a ≤ n → n ≤ m → digits z f m a b ≡ digits z f n a b
  spare_steps zero m a b le more = at_zero m a b (omega arith) ∙ sym (at_zero 0 a b (omega arith))
  spare_steps (suc n) zero a b le more = absurd (omega arith)
  spare_steps (suc n) (suc m) zero b le more = refl
  spare_steps (suc n) (suc m) (suc a) b le more =
      ap (λ r. r * 2 + f (suc a % 2) (b % 2))
        (spare_steps n m (suc a / 2) (b / 2) (omega arith) (omega arith))

  bitwise_lowest :
      (a b : ℕ)
      → bitwise z f (suc a) b ≡ f (suc a % 2) (b % 2) + 2 * bitwise z f (suc a / 2) (b / 2)
  bitwise_lowest a b =
      omega (arith, spare_steps (suc a / 2) a (suc a / 2) (b / 2) (omega arith) (omega arith))

differ_digits : (x y : ℕ) → x < 2 → y < 2 → differ x y ≡ (x + y) % 2
differ_digits zero y h k = omega arith
differ_digits (suc zero) zero h k = omega arith
differ_digits (suc zero) (suc zero) h k = omega arith
differ_digits (suc zero) (suc (suc y)) h k = absurd (omega arith)
differ_digits (suc (suc x)) y h k = absurd (omega arith)

-- One equation for the lowest digit of each operation.
and_lowest : (a b : ℕ) → bit_and a b ≡ bit_and (a / 2) (b / 2) * 2 + min (a % 2) (b % 2)
and_lowest zero b = simp bit_and-bitwise (omega arith)
and_lowest (suc a) b = simp bit_and-bitwise (omega (arith, bitwise_lowest (λ y. 0) min a b))

or_lowest : (a b : ℕ) → bit_or a b ≡ bit_or (a / 2) (b / 2) * 2 + max (a % 2) (b % 2)
or_lowest zero b = simp bit_or-bitwise (omega arith)
or_lowest (suc a) b = simp bit_or-bitwise (omega (arith, bitwise_lowest (λ y. y) max a b))

xor_lowest : (a b : ℕ) → bit_xor a b ≡ bit_xor (a / 2) (b / 2) * 2 + (a % 2 + b % 2) % 2
xor_lowest zero b = simp bit_xor-bitwise (omega arith)
xor_lowest (suc a) b = omega (
  arith,
  bit_xor-bitwise (suc a) b,
  bit_xor-bitwise (suc a / 2) (b / 2),
  bitwise_lowest (λ y. y) differ a b,
  differ_digits (suc a % 2) (b % 2) (omega arith) (omega arith),
)

xor_half : (a b : ℕ) → bit_xor a b / 2 ≡ bit_xor (a / 2) (b / 2)
xor_half a b = omega (arith, xor_lowest a b)

xor_parity : (a b : ℕ) → bit_xor a b % 2 ≡ (a % 2 + b % 2) % 2
xor_parity a b = omega (arith, xor_lowest a b)

xor_recover_below : (n a b : ℕ) → a ≤ n → b ≤ n → bit_xor b (bit_xor a b) ≡ a
xor_recover_below zero zero zero p q = refl
xor_recover_below zero zero (suc b) p q = absurd (omega arith)
xor_recover_below zero (suc a) b p q = absurd (omega arith)
xor_recover_below (suc n) a b p q = ground (
  arith,
  xor_lowest b (bit_xor a b),
  xor_half a b,
  xor_parity a b,
  xor_recover_below n (a / 2) (b / 2) (omega arith) (omega arith),
)

xor_comm_below : (n a b : ℕ) → a ≤ n → b ≤ n → bit_xor a b ≡ bit_xor b a
xor_comm_below zero zero zero p q = refl
xor_comm_below zero zero (suc b) p q = absurd (omega arith)
xor_comm_below zero (suc a) b p q = absurd (omega arith)
xor_comm_below (suc n) a b p q = omega (
  arith,
  xor_lowest a b,
  xor_lowest b a,
  xor_comm_below n (a / 2) (b / 2) (omega arith) (omega arith),
)

-- The second step of an exchange by exclusive or gives the first value back.
pub xor_recover : (a b : ℕ) → bit_xor b (bit_xor a b) ≡ a
xor_recover a b = xor_recover_below (a + b) a b (omega arith) (omega arith)

pub xor_comm : (a b : ℕ) → bit_xor a b ≡ bit_xor b a
xor_comm a b = xor_comm_below (a + b) a b (omega arith) (omega arith)

or_none : (n a : ℕ) → a ≤ n → bit_or a 0 ≡ a
or_none zero zero h = refl
or_none zero (suc a) h = absurd (omega arith)
or_none (suc n) a h = omega (arith, or_lowest a 0, or_none n (a / 2) (omega arith))

twice-pow : (q k : ℕ) → q * 2 ^ suc k ≡ 2 * (q * 2 ^ k)
twice-pow q k = omega (arith, ap (λ (t : ℕ). q * t) (pow-suc 2 k))

-- `(q << k) | r` is a sum where `r` has k bits.
pub or_disjoint : (k q r : ℕ) → r < 2 ^ k → bit_or (q * 2 ^ k) r ≡ q * 2 ^ k + r
or_disjoint zero q r h = ground (arith, or_none q q (omega arith))
or_disjoint (suc k) q r h = ground (
  arith,
  or_lowest (q * 2 ^ suc k) r,
  twice-pow q k,
  or_disjoint k q (r / 2) (omega (arith, pow-suc 2 k)),
)

or_comm_below : (n a b : ℕ) → a ≤ n → b ≤ n → bit_or a b ≡ bit_or b a
or_comm_below zero zero zero p q = refl
or_comm_below zero zero (suc b) p q = absurd (omega arith)
or_comm_below zero (suc a) b p q = absurd (omega arith)
or_comm_below (suc n) a b p q = omega (
  arith,
  or_lowest a b,
  or_lowest b a,
  or_comm_below n (a / 2) (b / 2) (omega arith) (omega arith),
)

pub or_comm : (a b : ℕ) → bit_or a b ≡ bit_or b a
or_comm a b = or_comm_below (a + b) a b (omega arith) (omega arith)

and_none : (n a : ℕ) → a ≤ n → bit_and a 0 ≡ 0
and_none zero zero h = refl
and_none zero (suc a) h = absurd (omega arith)
and_none (suc n) a h = omega (arith, and_lowest a 0, and_none n (a / 2) (omega arith))

half_mask : (k : ℕ) → (2 ^ suc k - 1) / 2 ≡ 2 ^ k - 1
half_mask k = omega (arith, pow-suc 2 k, one-le-pow k 2)

-- The low bits of `a` are those of its half, and its last one.
mod_lowest : (k a : ℕ) → a % 2 ^ suc k ≡ a / 2 % 2 ^ k * 2 + a % 2
mod_lowest k a =
    ap (λ (t : ℕ). t % 2 ^ suc k) split
    ∙ mul-add-mod_self_left (2 ^ suc k) (a / 2 / 2 ^ k) (a / 2 % 2 ^ k * 2 + a % 2)
    ∙ mod-eq_of_lt (omega (arith, pow-suc 2 k, one-le-pow k 2, mod-lt (a / 2) {m = 2 ^ k}))
  where
    split : a ≡ 2 ^ suc k * (a / 2 / 2 ^ k) + (a / 2 % 2 ^ k * 2 + a % 2)
    split =
        omega
          (arith, div-add-mod (a / 2) (2 ^ k), ap (λ (t : ℕ). t * (a / 2 / 2 ^ k)) (pow-suc 2 k))

-- `a & (1 << k - 1)` is the remainder by `2 ^ k`.
pub and_mask : (k a : ℕ) → bit_and a (2 ^ k - 1) ≡ a % 2 ^ k
and_mask zero a = omega (arith, and_none a a (omega arith))
and_mask (suc k) a = ground (
  arith,
  and_lowest a (2 ^ suc k - 1),
  half_mask k,
  pow-suc 2 k,
  one-le-pow k 2,
  and_mask k (a / 2),
  mod_lowest k a,
)

-- The high half of a byte.
pub and_high_half : (x : ℕ) → x < 256 → bit_and x 0xf0 ≡ x / 16 * 16
and_high_half x h = omega (
  arith,
  and_lowest x 240,
  and_lowest (x / 2) 120,
  and_lowest (x / 2 / 2) 60,
  and_lowest (x / 2 / 2 / 2) 30,
  and_mask 4 (x / 2 / 2 / 2 / 2),
)

le-or_below : (n a b : ℕ) → a ≤ n → a ≤ bit_or a b
le-or_below zero zero b p = omega arith
le-or_below zero (suc a) b p = absurd (omega arith)
le-or_below (suc n) a b p =
    omega (arith, or_lowest a b, le-or_below n (a / 2) (b / 2) (omega arith))

-- An inclusive or is no smaller than its parts, and needs no more bits than they do.
pub le-or_left : (a b : ℕ) → a ≤ bit_or a b
le-or_left a b = le-or_below a a b (omega arith)

pub le-or_right : (a b : ℕ) → b ≤ bit_or a b
le-or_right a b = omega (arith, or_comm a b, le-or_left b a)

pub or_below : (k a b : ℕ) → a < 2 ^ k → b < 2 ^ k → bit_or a b < 2 ^ k
or_below zero zero zero h h' = omega arith
or_below zero zero (suc b) h h' = absurd (omega arith)
or_below zero (suc a) b h h' = absurd (omega arith)
or_below (suc k) a b h h' = omega (
  arith,
  pow-suc 2 k,
  or_lowest a b,
  or_below k (a / 2) (b / 2) (omega (arith, pow-suc 2 k)) (omega (arith, pow-suc 2 k)),
)

-- `|` acts on the high bits alone where one side has no low ones.
pub or_high :
    (k q p r : ℕ) → r < 2 ^ k → bit_or (q * 2 ^ k + r) (p * 2 ^ k) ≡ bit_or q p * 2 ^ k + r
or_high zero q p r h = ground arith
or_high (suc k) q p r h = ground (
  arith,
  or_lowest (q * 2 ^ suc k + r) (p * 2 ^ suc k),
  twice-pow q k,
  twice-pow p k,
  twice-pow (bit_or q p) k,
  or_high k q p (r / 2) (omega (arith, pow-suc 2 k)),
)
