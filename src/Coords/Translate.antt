-- ===== src/Coords/Translate.antt =====
-- Moving a block location (src/chunkymonkey/types/types.go: AddXyz, Dxyz).
use chunkymonkey.Base.{
  ℕ, ◌+◌, ◌-◌, ◌^◌, ◌<◌, ◌≡◌, ◌↔◌, arith, Bool, true, false, ◌||◌, Option, none, some, inl, inr,
  Bool-cases, refl,
}
use chunkymonkey.Base.Int.{ℤ, pos, negsuc, ◌+ℤ◌, ◌≤ℤ◌, signed8, signed32}
use chunkymonkey.Base.Words.{u8, u32, lt8, lt32}
use chunkymonkey.Coords.{BlockXyz, overflows32, overflows8, add_xyz}
use chunkymonkey.Coords.Chunks.{IsBlock}

-- The values that a coordinate and a height can have.
abbrev pub Fits32 : ℤ → Type 0
Fits32 v = (negsuc (2 ^ 31 - 1) ≤ℤ v) × (v ≤ℤ pos (2 ^ 31 - 1))

abbrev pub IsHeight : ℤ → Type 0
IsHeight v = (pos 0 ≤ℤ v) × (v ≤ℤ pos 127)

axis32 :
    (b d : ℕ)
    → b < 2 ^ 32
    → d < 2 ^ 32
    → (overflows32 b d ≡ false) ↔ Fits32 (signed32 b +ℤ signed32 d)
unfolding overflows32 ◌+ℤ◌
axis32 b d hb hd = (λ h. ground arith, λ h. ground arith)

sum32 :
    (b d : ℕ)
    → b < 2 ^ 32
    → d < 2 ^ 32
    → overflows32 b d ≡ false
    → signed32 (u32 (b + d)) ≡ signed32 b +ℤ signed32 d
unfolding overflows32 ◌+ℤ◌
sum32 b d hb hd h = ground arith

height_lem :
    (b d : ℕ)
    → b < 2 ^ 8
    → d < 2 ^ 8
    → let sum = u8 (b + d) in
      ((overflows8 b d || (lt8 127 sum || lt8 sum 0)) ≡ false) ↔ IsHeight (signed8 b +ℤ signed8 d)
unfolding overflows8 ◌+ℤ◌
height_lem b d hb hd = (λ h. ground arith, λ h. ground arith)

sum8 :
    (b d : ℕ)
    → b < 2 ^ 8
    → d < 2 ^ 8
    → overflows8 b d ≡ false
    → signed8 (u8 (b + d)) ≡ signed8 b +ℤ signed8 d
unfolding overflows8 ◌+ℤ◌
sum8 b d hb hd h = ground arith

never_past_32 : (n : ℕ) → (lt32 (2 ^ 31 - 1) n || lt32 n (2 ^ 31)) ≡ false
never_past_32 n = ground arith

-- What `AddXyz` returns: the location at the exact sums, or nothing if a sum is no coordinate or
-- the height would leave 0 to 127.
abbrev pub Moved : BlockXyz → ℕ → ℕ → ℕ → Option BlockXyz → Type 0
Moved b dx dy dz none = ¬ (
    Fits32 (signed32 b.x +ℤ signed32 dx)
    × IsHeight (signed8 b.y +ℤ signed8 dy)
    × Fits32 (signed32 b.z +ℤ signed32 dz))
Moved b dx dy dz (some b') =
    (signed32 b'.x ≡ signed32 b.x +ℤ signed32 dx)
    × (signed8 b'.y ≡ signed8 b.y +ℤ signed8 dy)
    × (signed32 b'.z ≡ signed32 b.z +ℤ signed32 dz)
    × IsHeight (signed8 b.y +ℤ signed8 dy)

-- `AddXyz` of a location with int32 and int8 offsets returns the location at the exact sums, at a
-- height of 0 to 127, and nothing only if a sum is no int32 or the height would leave 0 to 127.
pub add_xyz-Moved :
    (b : BlockXyz) (dx dy dz : ℕ)
    → IsBlock b
    → dx < 2 ^ 32
    → dy < 2 ^ 8
    → dz < 2 ^ 32
    → Moved b dx dy dz (add_xyz b dx dy dz)
unfolding add_xyz
add_xyz-Moved b dx dy dz (hx, hy, hz) hdx hdy hdz =
    rw (never_past_32 (u32 (b.x + dx)), never_past_32 (u32 (b.z + dz)))
      (elim (Bool-cases (overflows32 b.x dx)) [
        | inl ex ↦ rw ex (λ fits. clash ex ((axis32 b.x dx hx hdx).1 fits.0))
        | inr ex ↦ elim (Bool-cases (overflows8 b.y dy)) [
          | inl ey ↦ rw (ex, ey) (λ fits. clash (too_high ey) ((height_lem b.y dy hy hdy).1 fits.1))
          | inr ey ↦ elim (Bool-cases (overflows32 b.z dz)) [
            | inl ez ↦ rw (ex, ey, ez) (λ fits. clash ez ((axis32 b.z dz hz hdz).1 fits.2))
            | inr ez ↦ elim (Bool-cases (lt8 127 (u8 (b.y + dy)) || lt8 (u8 (b.y + dy)) 0)) [
              | inl r ↦
                  rw (ex, ey, ez, r)
                    (λ fits. clash r (rw ey at ((height_lem b.y dy hy hdy).1 fits.1)))
              | inr r ↦
                  rw (ex, ey, ez, r)
                    (
                      sum32 b.x dx hx hdx ex,
                      sum8 b.y dy hy hdy ey,
                      sum32 b.z dz hz hdz ez,
                      (height_lem b.y dy hy hdy).0 (rw (ey, r) refl),
                    )
            ]
          ]
        ]
      ])
  where
    clash : {t : Bool} → t ≡ true → t ≡ false → ⊥
    clash e f = cc

    too_high :
        overflows8 b.y dy ≡ true
        → (overflows8 b.y dy || (lt8 127 (u8 (b.y + dy)) || lt8 (u8 (b.y + dy)) 0)) ≡ true
    too_high e = rw e refl
