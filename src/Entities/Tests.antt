-- ===== src/Entities/Tests.antt =====
-- A concrete entity manager, and the theorems at it.
use chunkymonkey.Base.{◌^◌, ◌-◌, ◌≡◌, refl, arith, some, [], ◌∷◌}
use chunkymonkey.Entities.{
  EntityManager, init_entities, exists, search_id, register, new_entity, remove_entity_by_id,
  without,
}
use chunkymonkey.Entities.Fresh.{Fresh, new_entity-Fresh}

-- The last identifier and the first are taken.
abbrev wrapping : EntityManager
wrapping = record { next_entity_id = 2 ^ 32 - 1; entities = (2 ^ 32 - 1) ∷ 0 ∷ [] }

wraps_around :
    new_entity wrapping
    ≡ some (record { next_entity_id = 2; entities = 1 ∷ (2 ^ 32 - 1) ∷ 0 ∷ [] }, 1)
unfolding new_entity register search_id exists
wraps_around = refl

first_entity : new_entity init_entities ≡ some (record { next_entity_id = 1; entities = 0 ∷ [] }, 0)
unfolding new_entity register search_id exists init_entities
first_entity = refl

new_entity-Fresh_example : Fresh wrapping (new_entity wrapping)
new_entity-Fresh_example = new_entity-Fresh wrapping (omega arith)

wrapped_removed : (remove_entity_by_id wrapping 0).entities ≡ (2 ^ 32 - 1) ∷ []
unfolding remove_entity_by_id without
wrapped_removed = refl
