-- ===== src/Permission/Tests.antt =====
-- A moderator, who inherits from the players.
use chunkymonkey.Base.{
  ℕ, ◌<◌, ◌≡◌, refl, sym, subst, ◌↔◌, ◌⊎◌, Bool, true, false, none, some, List, [], ◌∷◌, arith,
  if◌then◌else◌, All,
}
use chunkymonkey.Permission.{
  Name, Group, User, Groups, same_name, lookup, get_inheritance, cached_user, default_user, stem,
  has_prefix, has,
}
use chunkymonkey.Permission.Names.{same_name→≡}
use chunkymonkey.Permission.Grants.{In, Inherits, Covers, has-cached_user}
use chunkymonkey.Permission.Ending.{KnownBelow, get_inheritance-total}

abbrev node_chat : Name
node_chat = 99 ∷ 46 ∷ 97 ∷ []

abbrev star_c : Name
star_c = 99 ∷ 46 ∷ 42 ∷ []

abbrev node_kick : Name
node_kick = 107 ∷ []

abbrev players : Group
players = record { default = true; permissions = star_c ∷ []; inheritance = [] }

abbrev moderators : Group
moderators = record { default = false; permissions = node_kick ∷ []; inheritance = (1 ∷ []) ∷ [] }

abbrev two_groups : Groups
two_groups = (1 ∷ [], players) ∷ (2 ∷ [], moderators) ∷ []

abbrev moderator : User
moderator = record { groups = (2 ∷ []) ∷ []; permissions = [] }

default_permissions : default_user 2 two_groups two_groups ≡ some (star_c ∷ [])
unfolding default_user get_inheritance
default_permissions = refl

chats : has (node_kick ∷ star_c ∷ []) node_chat ≡ true
unfolding has same_name stem has_prefix
chats = refl

moderator_cached : cached_user 2 two_groups moderator ≡ some (node_kick ∷ star_c ∷ [])
unfolding cached_user get_inheritance lookup same_name
moderator_cached = refl

-- A group that inherits from itself is followed without end.
circle :
    get_inheritance 9
      ((1 ∷ [], record players { inheritance = (1 ∷ []) ∷ [] }) ∷ [])
      ((1 ∷ []) ∷ [])
    ≡ none
unfolding get_inheritance lookup same_name
circle = refl

has-cached_user_example :
    (has (node_kick ∷ star_c ∷ []) node_chat ≡ true)
    ↔ ((p : Name) × (In p [] ⊎ Inherits two_groups p ((2 ∷ []) ∷ [])) × Covers p node_chat)
has-cached_user_example =
    has-cached_user 2 two_groups moderator (node_kick ∷ star_c ∷ []) node_chat moderator_cached

abbrev first_byte : Name → ℕ
first_byte [] = 0
first_byte (a ∷ as') = a

some_group : (g h : Group) → some g ≡ some h → g ≡ h
some_group g h e = cc

no_group : (g : Group) → ¬ (none ≡ some g)
no_group g e = cc

players-KnownBelow :
    (name : Name) → name ≡ 2 ∷ [] → KnownBelow two_groups first_byte (first_byte name) (1 ∷ [])
unfolding lookup same_name
players-KnownBelow name e =
    (players, refl, subst (λ (n : Name). 1 < first_byte n) (sym e) (omega arith))

two_groups_ranked :
    (name : Name) (group : Group)
    → lookup name two_groups ≡ some group
    → All (KnownBelow two_groups first_byte (first_byte name)) group.inheritance
unfolding lookup
two_groups_ranked name group e =
    go (same_name name (1 ∷ [])) (same_name name (2 ∷ [])) (same_name→≡ name (2 ∷ [])) e
  where
    go :
        (a b : Bool)
        → (b ≡ true → name ≡ 2 ∷ [])
        → (if a then some players else if b then some moderators else none) ≡ some group
        → All (KnownBelow two_groups first_byte (first_byte name)) group.inheritance
    go true b same e =
        subst
          (λ (g : Group). All (KnownBelow two_groups first_byte (first_byte name)) g.inheritance)
          (some_group players group e) tt
    go false true same e =
        subst
          (λ (g : Group). All (KnownBelow two_groups first_byte (first_byte name)) g.inheritance)
          (some_group moderators group e) (players-KnownBelow name (same refl), tt)
    go false false same e = absurd (no_group group e)

moderators-KnownBelow : KnownBelow two_groups first_byte 3 (2 ∷ [])
unfolding lookup same_name
moderators-KnownBelow = (moderators, refl, omega arith)

get_inheritance-total_example :
    (perms : List Name) × (get_inheritance 3 two_groups ((2 ∷ []) ∷ []) ≡ some perms)
get_inheritance-total_example =
    get_inheritance-total two_groups first_byte two_groups_ranked 3 ((2 ∷ []) ∷ [])
      (moderators-KnownBelow, tt)
