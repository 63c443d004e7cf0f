-- ===== src/Subscription/Squares.antt =====
-- Which locations the difference of two squares holds
-- (src/chunkymonkey/player/player_subscription.go: squareDifference).
use chunkymonkey.Base.{
  ℕ, zero, suc, ◌+◌, ◌-◌, ◌*◌, ◌%◌, ◌^◌, ◌≤◌, ◌<◌, ◌≡◌, refl, arith, Bool, true, false, not, ◌&&◌,
  Option, none, some, List, [], ◌∷◌, ◌++◌, ◌==◌, if◌then◌else◌, inl, inr, Bool-cases,
}
use chunkymonkey.Base.Words.{u32, le32}
use chunkymonkey.Coords.{ChunkXz}
use chunkymonkey.Coords.Chunks.{IsWorldCoord}
use chunkymonkey.Subscription.{
  loop_values, lowest, highest, in_square, difference_row, difference_rows, square_difference,
}

abbrev count : ℕ → List ℕ → ℕ
count v [] = 0
count v (x ∷ xs) = (if x == v then 1 else 0) + count v xs

-- How often a location is listed.
abbrev pub occurrences : ChunkXz → List ChunkXz → ℕ
occurrences loc [] = 0
occurrences loc (l ∷ ls) = (if (l.x == loc.x) && (l.z == loc.z) then 1 else 0) + occurrences loc ls

occurrences-append :
    (loc : ChunkXz) (ks ls : List ChunkXz)
    → occurrences loc (ks ++ ls) ≡ occurrences loc ks + occurrences loc ls
occurrences-append loc [] ls = omega arith
occurrences-append loc (k ∷ ks) ls = omega (arith, occurrences-append loc ks ls)

-- A loop from `first` to `last`, in the order of the signed values, lists each value between once.
abbrev Lists : ℕ → ℕ → Option (List ℕ) → Type 0
Lists first last none = ⊥
Lists first last (some xs) =
    (v : ℕ) → v < 2 ^ 32 → count v xs ≡ (if le32 first v && le32 v last then 1 else 0)

abbrev bias : ℕ → ℕ
bias x = (x + 2 ^ 31) % 2 ^ 32

cons-Lists :
    (first last : ℕ) (r : Option (List ℕ))
    → first < 2 ^ 32
    → last < 2 ^ 32
    → bias first ≤ bias last
    → bias last < 2 ^ 32 - 1
    → Lists (u32 (first + 1)) last r
    → Lists first last (elim r [ none ↦ none | some xs ↦ some (first ∷ xs) ])
cons-Lists first last none hf hl le top h = h
cons-Lists first last (some xs) hf hl le top h = λ v k. ground (arith, h v k)

loop_values-Lists :
    (fuel first last : ℕ)
    → first < 2 ^ 32
    → last < 2 ^ 32
    → bias last < 2 ^ 32 - 1
    → bias last + 1 < bias first + fuel
    → bias first ≤ bias last + 1
    → Lists first last (loop_values fuel first last)
unfolding loop_values
loop_values-Lists zero first last hf hl top enough near = absurd (omega arith)
loop_values-Lists (suc fuel) first last hf hl top enough near =
    elim (Bool-cases (le32 first last)) [
      | inr e ↦ rw (e, loop_values) (λ v k. ground arith)
      | inl e ↦
          rw (e, loop_values)
            (cons-Lists first last (loop_values fuel (u32 (first + 1)) last) hf hl (ground arith)
              top
              (loop_values-Lists fuel (u32 (first + 1)) last (omega arith) hl top (ground arith)
                (ground arith)))
    ]

in_square-same :
    (b loc : ChunkXz) (radius x z : ℕ)
    → x ≡ loc.x
    → z ≡ loc.z
    → in_square b radius (record { x = x; z = z }) ≡ in_square b radius loc
unfolding in_square
in_square-same b loc radius x z e e' = rw (e, e') refl

difference_row-occurrences :
    (b loc : ChunkXz) (radius x : ℕ) (zs : List ℕ)
    → occurrences loc (difference_row b radius x zs)
      ≡ (if (x == loc.x) && not (in_square b radius loc) then count loc.z zs else 0)
unfolding difference_row
difference_row-occurrences b loc radius x [] = ground arith
difference_row-occurrences b loc radius x (z ∷ zs) =
    let rest = difference_row-occurrences b loc radius x zs in
    elim (Bool-cases (in_square b radius (record { x = x; z = z }))) [
      | inl e ↦ rw (e, difference_row) (ground (arith, rest, in_square-same b loc radius x z, e))
      | inr e ↦ rw (e, difference_row) (ground (arith, rest, in_square-same b loc radius x z, e))
    ]

difference_rows-occurrences :
    (b loc : ChunkXz) (radius : ℕ) (xs zs : List ℕ) (t : Bool)
    → count loc.z zs ≡ (if t then 1 else 0)
    → occurrences loc (difference_rows b radius xs zs)
      ≡ (if t && not (in_square b radius loc) then count loc.x xs else 0)
unfolding difference_rows
difference_rows-occurrences b loc radius [] zs t once = ground arith
difference_rows-occurrences b loc radius (x ∷ xs) zs t once = ground (
  arith,
  occurrences-append loc (difference_row b radius x zs) (difference_rows b radius xs zs),
  difference_row-occurrences b loc radius x zs,
  difference_rows-occurrences b loc radius xs zs t once,
)

-- What `squareDifference` returns.
abbrev pub Differs : ChunkXz → ChunkXz → ℕ → Option (List ChunkXz) → Type 0
Differs a b radius none = ⊥
Differs a b radius (some locs) =
    (loc : ChunkXz)
    → loc.x < 2 ^ 32
    → loc.z < 2 ^ 32
    → occurrences loc locs
      ≡ (if in_square a radius loc && not (in_square b radius loc) then 1 else 0)

abbrev between : ℕ → ℕ → ℕ → Bool
between c radius v = le32 (lowest c radius) v && le32 v (highest c radius)

square_axes :
    (a loc : ChunkXz) (radius : ℕ)
    → in_square a radius loc ≡ (between a.x radius loc.x && between a.z radius loc.z)
unfolding in_square
square_axes a loc radius =
    regroup (le32 (lowest a.x radius) loc.x) (le32 loc.x (highest a.x radius))
      (le32 (lowest a.z radius) loc.z) (le32 loc.z (highest a.z radius))
  where
    regroup : (p q r t : Bool) → (p && q && r && t) ≡ ((p && q) && (r && t))
    regroup true true r t = refl
    regroup true false r t = refl
    regroup false q r t = refl

both :
    (tx tz out sq : Bool) (n cx : ℕ)
    → n ≡ (if tz && not out then cx else 0)
    → cx ≡ (if tx then 1 else 0)
    → sq ≡ (tx && tz)
    → n ≡ (if sq && not out then 1 else 0)
both tx tz out sq n cx e e' e'' = ground arith

collected :
    (a b : ChunkXz) (radius : ℕ) (rx rz : Option (List ℕ))
    → Lists (lowest a.x radius) (highest a.x radius) rx
    → Lists (lowest a.z radius) (highest a.z radius) rz
    → Differs a b radius (elim rx [
      | none ↦ none
      | some xs ↦ elim rz [ none ↦ none | some zs ↦ some (difference_rows b radius xs zs) ]
    ])
collected a b radius none rz hx hz = hx
collected a b radius (some xs) none hx hz = hz
collected a b radius (some xs) (some zs) hx hz = λ loc kx kz.
    both _ _ (in_square b radius loc) _ _ _
      (difference_rows-occurrences b loc radius xs zs _ (hz loc.z kz)) (hx loc.x kx)
      (square_axes a loc radius)

square_loop :
    (c radius : ℕ)
    → IsWorldCoord c
    → radius < 2 ^ 27
    → Lists
        (lowest c radius)
        (highest c radius)
        (loop_values (radius * 2 + 2) (lowest c radius) (highest c radius))
square_loop c radius h k =
    loop_values-Lists (radius * 2 + 2) (lowest c radius) (highest c radius) (omega arith)
      (omega arith) (ground arith) (ground arith) (ground arith)

-- For a first center among the chunks of the world and a radius below 2 ^ 27, `squareDifference`
-- ends, and lists every location that is in the square of the first center and not in that of the
-- second exactly once, and no other location.
pub square_difference-Differs :
    (a b : ChunkXz) (radius : ℕ)
    → IsWorldCoord a.x
    → IsWorldCoord a.z
    → radius < 2 ^ 27
    → Differs a b radius (square_difference a b radius)
unfolding square_difference
square_difference-Differs a b radius hx hz k =
    collected a b radius _ _ (square_loop a.x radius hx k) (square_loop a.z radius hz k)
