-- ===== src/Entities.antt =====
-- Entity identifiers: src/chunkymonkey/entity/entity_manager.go. An identifier is an int32 bit
-- pattern; the map of entities is the list of its keys. The mutex makes each operation one step.
pub mod Fresh
mod Tests
use chunkymonkey.Base.{
  ℕ, zero, suc, ◌+◌, ◌^◌, Bool, true, false, ◌||◌, Option, none, some, List, [], ◌∷◌, ◌==◌,
  if◌then◌else◌,
}
use chunkymonkey.Base.Words.{u32}

pub record EntityManager : Type 0 where
  pub next_entity_id : ℕ
  pub entities : List ℕ

unfoldable pub init_entities : EntityManager
init_entities = record { next_entity_id = 0; entities = [] }

-- `_, exists := mgr.entities[entityId]`
unfoldable pub exists : ℕ → List ℕ → Bool
exists entity_id [] = false
exists entity_id (e ∷ es) = (e == entity_id) || exists entity_id es

-- How the search ends; `out_of_fuel` never happens (Entities/Fresh).
pub data Search : Type 0 where
  found : ℕ → Search
  exhausted out_of_fuel : Search

-- The loop of `createEntityId` from an identifier that is to be looked up.
unfoldable pub search_id : ℕ → List ℕ → ℕ → ℕ → Search
search_id zero entities next entity_id = out_of_fuel
search_id (suc fuel) entities next entity_id = elim (exists entity_id entities) [
  | false ↦ found entity_id
  | true ↦ elim (u32 (entity_id + 1) == next) [
    | true ↦ exhausted
    | false ↦ search_id fuel entities next (u32 (entity_id + 1))
  ]
]

-- `NewEntity`: `none` is the panic "EntityId space exhausted".
unfoldable pub register : EntityManager → Search → Option (EntityManager × ℕ)
register mgr (found entity_id) = some (
  record { next_entity_id = u32 (entity_id + 1); entities = entity_id ∷ mgr.entities },
  entity_id,
)
register mgr exhausted = none
register mgr out_of_fuel = none

unfoldable pub new_entity : EntityManager → Option (EntityManager × ℕ)
new_entity mgr =
    register mgr (search_id (2 ^ 32) mgr.entities mgr.next_entity_id mgr.next_entity_id)

-- The map without a key.
unfoldable pub without : ℕ → List ℕ → List ℕ
without entity_id [] = []
without entity_id (e ∷ es) =
    let rest = without entity_id es in if e == entity_id then rest else e ∷ rest

unfoldable pub remove_entity_by_id : EntityManager → ℕ → EntityManager
remove_entity_by_id mgr entity_id = record mgr { entities = without entity_id mgr.entities }
