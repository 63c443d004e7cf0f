-- ===== src/Recipe/Hashing.antt =====
-- What a match says about hashes (src/chunkymonkey/gamerules/recipe.go: inputHash, match).
use chunkymonkey.Base.{
  get_elem?, get_elem?_total, length-le_of_none, lt-length_of_get, All, ltb, ◌<◌, ◌&&◌, ◌⊎◌, ℕ, ◌+◌,
  ◌*◌, ◌≡◌, ◌≢◌, refl, sym, ap, ◌∙◌, arith, Bool, true, false, not, ◌||◌, Option, none, some, List,
  [], ◌∷◌, ◌++◌, ◌==◌, if◌then◌else◌, length, length-append, inl, inr, Bool-cases, Option-cases,
}
use mathlib.Core.List.{append_assoc}
use mathlib.Core.Option.{some-injective, none-ne-some}
use chunkymonkey.Slot.{Slot}
use chunkymonkey.Recipe.{
  Recipe, match_inputs, recipe_match, hash_slot, hash_loop, input_hash, count_up, recipe_hash,
  fnv1_32_offset,
}

-- A recipe as the loader makes it: its input fills its rectangle.
abbrev pub IsRecipe : Recipe → Type 0
IsRecipe r = length r.input ≡ r.width * r.height

same_hash :
    (hash : ℕ) (s r : Slot)
    → s.item_type_id ≡ r.item_type_id
    → s.item_data ≡ r.item_data
    → hash_slot hash s ≡ hash_slot hash r
unfolding hash_slot
same_hash hash s r e e' = rw (e, e') refl

match_head :
    (r s : Slot) (rest : Option Bool)
    → (if not (s.item_type_id == r.item_type_id) || not (s.item_data == r.item_data)
        then some false
        else rest)
      ≡ some true
    → (s.item_type_id ≡ r.item_type_id) × (s.item_data ≡ r.item_data) × (rest ≡ some true)
match_head r s rest m = ground arith

-- The hash of slots in their order.
unfoldable hash_slots : ℕ → List Slot → ℕ
hash_slots hash [] = hash
hash_slots hash (s ∷ ss) = hash_slots (hash_slot hash s) ss

get_middle : (pre ss : List Slot) (s : Slot) → get_elem? (pre ++ s ∷ ss) (length pre) ≡ some s
get_middle [] ss s = refl
get_middle (p ∷ pre) ss s = get_middle pre ss s

hash_loop-count_up :
    (pre ss : List Slot) (hash k : ℕ)
    → length pre ≡ k
    → hash_loop hash (pre ++ ss) (count_up k (length ss)) ≡ some (hash_slots hash ss)
unfolding count_up hash_loop hash_slots
hash_loop-count_up pre [] hash k e = refl
hash_loop-count_up pre (s ∷ ss) hash k e =
    let here : get_elem? (pre ++ s ∷ ss) k ≡ some s =
      ap (get_elem? (pre ++ s ∷ ss)) (sym e) ∙ get_middle pre ss s in
    let later =
      hash_loop-count_up (pre ++ s ∷ []) ss (hash_slot hash s) (k + 1)
        (omega (arith, length-append pre (s ∷ []))) in
    rw (here, hash_loop)
      (ap (λ xs. hash_loop (hash_slot hash s) xs (count_up (k + 1) (length ss)))
          (sym (append_assoc pre (s ∷ []) ss))
        ∙ later)

-- Hashing a recipe's own input does not panic, and `recipe_hash` is that hash.
pub recipe_hash_lem :
    (r : Recipe) → input_hash r.input (count_up 0 (length r.input)) ≡ some (recipe_hash r)
unfolding recipe_hash input_hash
recipe_hash_lem r = rw (hash_loop-count_up [] r.input fnv1_32_offset 0 refl) refl

-- Slots that match a recipe hash like its input.
match_inputs-hash :
    (input slots : List Slot) (indices : List ℕ) (hash : ℕ)
    → length input ≡ length indices
    → match_inputs input slots indices ≡ some true
    → hash_loop hash slots indices ≡ some (hash_slots hash input)
unfolding match_inputs hash_loop hash_slots
match_inputs-hash [] slots [] hash e m = refl
match_inputs-hash [] slots (i ∷ indices) hash e m = absurd (omega arith)
match_inputs-hash (r ∷ input) slots [] hash e m = absurd (omega arith)
match_inputs-hash (r ∷ input) slots (i ∷ indices) hash e m =
    elim (Option-cases (get_elem? slots i)) [
      | inl g ↦ absurd (none-ne-some true (rw (g, match_inputs) at m))
      | inr (s, g) ↦
          let (same_type, same_data, later) = match_head r s _ (rw (g, match_inputs) at m) in
          rw (g, hash_loop)
            (ap (λ k. hash_loop k slots indices) (same_hash hash s r same_type same_data)
              ∙ match_inputs-hash input slots indices (hash_slot hash r) (omega arith) later)
    ]

pub never_faults :
    (input slots : List Slot) (indices : List ℕ)
    → length input ≡ length indices
    → All (λ i. i < length slots) indices
    → match_inputs input slots indices ≢ none
unfolding match_inputs
never_faults [] slots indices e v m = ground arith
never_faults (r ∷ input) slots [] e v m = absurd (omega arith)
never_faults (r ∷ input) slots (i ∷ indices) e v m =
    let (s, g) = get_elem?_total slots i v.0 in
    let later = never_faults input slots indices (omega arith) v.1 in
    missed s _ later (rw (g, match_inputs) at m)
  where
    missed :
        (s : Slot) (rest : Option Bool)
        → rest ≢ none
        → (if not (s.item_type_id == r.item_type_id) || not (s.item_data == r.item_data)
            then some false
            else rest)
          ≢ none
    missed s rest h m = ground arith

-- A recipe in another bucket does not match.
pub other_bucket :
    (r : Recipe) (w h k : ℕ) (slots : List Slot) (indices : List ℕ)
    → IsRecipe r
    → length indices ≡ w * h
    → All (λ i. i < length slots) indices
    → input_hash slots indices ≡ some k
    → recipe_hash r ≢ k
    → recipe_match r w h slots indices ≡ some false
unfolding recipe_match input_hash
other_bucket r w h k slots indices v size inside hashed other =
    elim (Bool-cases (not (w == r.width) || not (h == r.height))) [
      | inl e ↦ rw e refl
      | inr e ↦
          let wide : w ≡ r.width = ground arith in
          let high : h ≡ r.height = ground arith in
          let same : length r.input ≡ length indices = cc in
          elim (Option-cases (match_inputs r.input slots indices)) [
            | inl m ↦ absurd (never_faults r.input slots indices same inside m)
            | inr (true, m) ↦ absurd (
                other (
                  some-injective _ _ (
                    sym (recipe_hash_lem r)
                    ∙ hash_loop-count_up [] r.input fnv1_32_offset 0 refl
                    ∙ sym (match_inputs-hash r.input slots indices fnv1_32_offset same m)
                    ∙ hashed)))
            | inr (false, m) ↦ rw (e, m) refl
          ]
    ]

-- Hashing reads each index, and panics just where one of them is past the end.
unfoldable pub in_range : List Slot → List ℕ → Bool
in_range slots [] = true
in_range slots (i ∷ indices) = ltb i (length slots) && in_range slots indices

hash_loop-cases :
    (hash : ℕ) (slots : List Slot) (indices : List ℕ)
    → ((in_range slots indices ≡ false) × (hash_loop hash slots indices ≡ none))
      ⊎ (All (λ i. i < length slots) indices
          × (in_range slots indices ≡ true)
          × ((k : ℕ) × (hash_loop hash slots indices ≡ some k)))
unfolding hash_loop in_range
hash_loop-cases hash slots [] = inr (tt, refl, (hash, refl))
hash_loop-cases hash slots (i ∷ indices) = elim (Option-cases (get_elem? slots i)) [
  | inl g ↦
      let past : ltb i (length slots) ≡ false = ground (arith, length-le_of_none slots i g) in
      inl (rw past refl, rw (g, hash_loop) refl)
  | inr (s, g) ↦
      let below : i < length slots = lt-length_of_get slots i s g in
      let here : ltb i (length slots) ≡ true = ground arith in
      elim (hash_loop-cases (hash_slot hash s) slots indices) [
        | inl (out, none_read) ↦ inl (rw (here, out) refl, rw (g, hash_loop) none_read)
        | inr (later, all_in, (k, read)) ↦
            inr ((below, later), rw (here, all_in) refl, (k, rw (g, hash_loop) read))
      ]
]

pub input_hash-cases :
    (slots : List Slot) (indices : List ℕ)
    → ((in_range slots indices ≡ false) × (input_hash slots indices ≡ none))
      ⊎ (All (λ i. i < length slots) indices
          × (in_range slots indices ≡ true)
          × ((k : ℕ) × (input_hash slots indices ≡ some k)))
unfolding input_hash
input_hash-cases slots indices = hash_loop-cases fnv1_32_offset slots indices
