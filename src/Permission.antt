-- ===== src/Permission.antt =====
-- Permissions of users: src/chunkymonkey/permission/jsonpermission.go, with the groups and users of
-- group.go and user.go. Names and permissions are lists of bytes, and the decoded JSON files are lists
-- of pairs in the order in which the code visits the maps.
pub mod Names
pub mod Grants
pub mod Ending
mod Tests
use chunkymonkey.Base.{
  ℕ, zero, suc, Bool, true, false, ◌&&◌, Option, none, some, List, [], ◌∷◌, ◌++◌, ◌==◌,
  if◌then◌else◌,
}

abbrev pub Name : Type 0
Name = List ℕ

pub record Group : Type 0 where
  pub default : Bool
  pub permissions : List Name
  pub inheritance : List Name

pub record User : Type 0 where
  pub groups : List Name
  pub permissions : List Name

abbrev pub Groups : Type 0
Groups = List (Name × Group)

abbrev pub Users : Type 0
Users = List (Name × User)

unfoldable pub same_name : Name → Name → Bool
same_name [] [] = true
same_name [] (b ∷ bs) = false
same_name (a ∷ as') [] = false
same_name (a ∷ as') (b ∷ bs) = (a == b) && same_name as' bs

unfoldable pub lookup {ℓ} : {A : Type ℓ} → Name → List (Name × A) → Option A
lookup key [] = none
lookup key ((k, v) ∷ entries) = if same_name key k then some v else lookup key entries

abbrev pub appended : Option (List Name) → Option (List Name) → Option (List Name)
appended (some ps) (some qs) = some (ps ++ qs)
appended (some ps) none = none
appended none qs = none

-- `none` is a panic: the nil pointer of an unknown group, or a recursion that goes deeper than `depth`.
unfoldable pub get_inheritance : ℕ → Groups → List Name → Option (List Name)
get_inheritance depth groups [] = some []
get_inheritance zero groups (name ∷ names) = none
get_inheritance (suc depth) groups (name ∷ names) = elim (lookup name groups) [
  | none ↦ none
  | some group ↦
      appended (appended (some group.permissions) (get_inheritance depth groups group.inheritance))
        (get_inheritance (suc depth) groups names)
]

-- The cached permissions of a user: his own and those of his groups.
unfoldable pub cached_user : ℕ → Groups → User → Option (List Name)
cached_user depth groups user =
    appended (some user.permissions) (get_inheritance depth groups user.groups)

-- The permissions of the default user: those of all groups that are default.
unfoldable pub default_user : ℕ → Groups → Groups → Option (List Name)
default_user depth all [] = some []
default_user depth all ((name, group) ∷ groups) =
    if group.default
    then appended (appended (some group.permissions) (get_inheritance depth all group.inheritance))
        (default_user depth all groups)
    else default_user depth all groups

-- A permission without its last byte, if that is a star.
unfoldable pub stem : Name → Option Name
stem [] = none
stem (c ∷ []) = if c == 42 then some [] else none
stem (c ∷ d ∷ cs) = elim (stem (d ∷ cs)) [ none ↦ none | some s ↦ some (c ∷ s) ]

unfoldable pub has_prefix : Name → Name → Bool
has_prefix node [] = true
has_prefix [] (c ∷ cs) = false
has_prefix (b ∷ bs) (c ∷ cs) = (b == c) && has_prefix bs cs

abbrev pub star_matches : Option Name → Name → Bool
star_matches none node = false
star_matches (some s) node = has_prefix node s

unfoldable pub has : List Name → Name → Bool
has [] node = false
has (p ∷ ps) node =
    if same_name p node then true else if star_matches (stem p) node then true else has ps node

-- The permissions that a user of the given name has: those cached under it, or the default user's.
abbrev pub user_permissions : List (Name × List Name) → List Name → Name → List Name
user_permissions users default username = elim (lookup username users) [
  | none ↦ default
  | some permissions ↦ permissions
]
