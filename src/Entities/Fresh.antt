-- ===== src/Entities/Fresh.antt =====
-- The identifier of a new entity is free (src/chunkymonkey/entity/entity_manager.go).
use chunkymonkey.Base.{
  ℕ, zero, suc, ◌+◌, ◌-◌, ◌%◌, ◌^◌, ◌<◌, ◌≡◌, refl, ap, ◌∙◌, arith, true, false, ◌||◌, Option, none,
  some, List, ◌==◌, ==_iff, subst, inl, inr, Bool-cases,
}
use chunkymonkey.Base.Words.{u32}
use chunkymonkey.Entities.{
  EntityManager, exists, Search, found, exhausted, out_of_fuel, search_id, register, new_entity,
}

-- What a search may answer.
abbrev Answers : List ℕ → Search → Type 0
Answers es (found i) = (exists i es ≡ false) × (i < 2 ^ 32)
Answers es exhausted = (i : ℕ) → i < 2 ^ 32 → exists i es ≡ true
Answers es out_of_fuel = ⊥

module _ (es : List ℕ) (next : ℕ) (range : next < 2 ^ 32) where
  -- After `k` identifiers that exist, with fuel for the rest of the circle.
  search_id-Answers :
      (fuel k : ℕ)
      → fuel + k ≡ 2 ^ 32
      → 0 < fuel
      → ((j : ℕ) → j < k → exists (u32 (next + j)) es ≡ true)
      → Answers es (search_id fuel es next (u32 (next + k)))
  unfolding search_id
  search_id-Answers zero k whole some_left taken = absurd (omega arith)
  search_id-Answers (suc fuel) k whole some_left taken =
      elim (Bool-cases (exists (u32 (next + k)) es)) [
        | inr e ↦ rw (e, search_id) (e, omega arith)
        | inl e ↦
            let more = taken_too e in
            elim (Bool-cases (u32 (u32 (next + k) + 1) == next)) [
              | inl q ↦ rw (e, q, search_id) (λ i h. every i h (ground arith) more)
              | inr q ↦
                  rw (e, q, search_id)
                    (subst (λ i. Answers es (search_id fuel es next i)) (omega arith)
                      (search_id-Answers fuel (k + 1) (omega arith) (ground arith) more))
            ]
      ]
    where
      taken_too :
          exists (u32 (next + k)) es ≡ true
          → (j : ℕ) → j < k + 1
          → exists (u32 (next + j)) es ≡ true
      taken_too e j h = elim (Bool-cases (j == k)) [
        | inl q ↦ rw ((==_iff _ _).0 q) e
        | inr q ↦ taken j (ground arith)
      ]

      every :
          (i : ℕ)
          → i < 2 ^ 32
          → k + 1 ≡ 2 ^ 32
          → ((j : ℕ) → j < k + 1 → exists (u32 (next + j)) es ≡ true)
          → exists i es ≡ true
      every i h last more =
          ap (λ x. exists x es) (omega arith) ∙ more ((i + 2 ^ 32 - next) % 2 ^ 32) (omega arith)

-- What `NewEntity` returns.
abbrev pub Fresh : EntityManager → Option (EntityManager × ℕ) → Type 0
Fresh mgr none = (i : ℕ) → i < 2 ^ 32 → exists i mgr.entities ≡ true
Fresh mgr (some (mgr', i)) =
    (exists i mgr.entities ≡ false)
    × (i < 2 ^ 32)
    × (mgr'.next_entity_id < 2 ^ 32)
    × ((j : ℕ) → exists j mgr'.entities ≡ ((i == j) || exists j mgr.entities))

register-Fresh :
    (mgr : EntityManager) (s : Search) → Answers mgr.entities s → Fresh mgr (register mgr s)
unfolding register exists
register-Fresh mgr (found i) (free, h) = (free, h, omega arith, λ j. refl)
register-Fresh mgr exhausted all = all
register-Fresh mgr out_of_fuel h = absurd h

-- From an int32 next identifier, `NewEntity` returns an int32 identifier that no entity has, adds it
-- and no other to the entities, and leaves an int32 next identifier; it panics only if all 2 ^ 32
-- identifiers are taken. The search never runs out of its 2 ^ 32 steps.
pub new_entity-Fresh :
    (mgr : EntityManager) → mgr.next_entity_id < 2 ^ 32 → Fresh mgr (new_entity mgr)
unfolding new_entity
new_entity-Fresh mgr h = register-Fresh mgr _ (
    subst (λ i. Answers mgr.entities (search_id (2 ^ 32) mgr.entities mgr.next_entity_id i))
      (omega arith)
      (search_id-Answers mgr.entities mgr.next_entity_id h (2 ^ 32) 0 (omega arith) (omega arith)
        (λ j k. absurd (omega arith))))
