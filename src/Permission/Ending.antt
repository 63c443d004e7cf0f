-- ===== src/Permission/Ending.antt =====
-- The recursion through inherited groups in src/chunkymonkey/permission/jsonpermission.go ends if there
-- is no circle.
use chunkymonkey.Base.{ℕ, zero, suc, ◌≤◌, ◌<◌, ◌≡◌, refl, some, List, [], ◌∷◌, ◌++◌, arith, All}
use chunkymonkey.Permission.{Name, Group, Groups, lookup, get_inheritance}

names_joined :
    (depth : ℕ) (groups : Groups) (name : Name) (group : Group) (names above rest : List Name)
    → lookup name groups ≡ some group
    → get_inheritance depth groups group.inheritance ≡ some above
    → get_inheritance (suc depth) groups names ≡ some rest
    → get_inheritance (suc depth) groups (name ∷ names)
      ≡ some ((group.permissions ++ above) ++ rest)
unfolding get_inheritance
names_joined depth groups name group names above rest f e0 e1 =
    rw (f, get_inheritance) (rw (e0, e1))

-- A group that is there, and whose rank is below `bound`.
abbrev pub KnownBelow : Groups → (Name → ℕ) → ℕ → Name → Type 0
KnownBelow groups rank bound name =
    (group : Group) × (lookup name groups ≡ some group) × (rank name < bound)

All-below :
    (groups : Groups) (rank : Name → ℕ) (a b : ℕ) (names : List Name)
    → a ≤ b
    → All (KnownBelow groups rank a) names
    → All (KnownBelow groups rank b) names
All-below groups rank a b [] le h = tt
All-below groups rank a b (name ∷ names) le h =
    ((h.0.0, h.0.1, omega arith), All-below groups rank a b names le h.1)

-- If every group inherits only from groups that are there and of lower rank, so that no group inherits
-- from itself, then the permissions of groups that are there are found, with a recursion no deeper than
-- a bound on their ranks.
pub get_inheritance-total :
    (groups : Groups) (rank : Name → ℕ)
    → ((name : Name) (group : Group)
        → lookup name groups ≡ some group
        → All (KnownBelow groups rank (rank name)) group.inheritance)
    → (depth : ℕ) (names : List Name) → All (KnownBelow groups rank depth) names
    → (perms : List Name) × (get_inheritance depth groups names ≡ some perms)
unfolding get_inheritance
get_inheritance-total groups rank ranked depth [] h = ([], refl)
get_inheritance-total groups rank ranked zero (name ∷ names) h = absurd (omega arith)
get_inheritance-total groups rank ranked (suc depth) (name ∷ names) ((group, f, lt), more) =
    let (above, e0) = get_inheritance-total groups rank ranked depth group.inheritance (
      All-below groups rank (rank name) depth group.inheritance (omega arith)
        (ranked name group f)) in
    let (rest, e1) = get_inheritance-total groups rank ranked (suc depth) names more in
    (
      (group.permissions ++ above) ++ rest,
      names_joined depth groups name group names above rest f e0 e1,
    )
