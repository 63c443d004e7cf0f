-- ===== src/Permission/Grants.antt =====
-- Which permissions src/chunkymonkey/permission/jsonpermission.go grants: those of the user and of the
-- groups that he is in, directly or by inheritance.
use chunkymonkey.Base.{
  ℕ, zero, suc, ◌≡◌, refl, sym, ap, ◌∙◌, subst, ◌↔◌, ◌⊎◌, inl, inr, Bool, true, false, Option, none,
  some, List, [], ◌∷◌, ◌++◌, arith, if◌then◌else◌, Bool-cases,
}
use chunkymonkey.Permission.{
  Name, Group, User, Groups, same_name, lookup, appended, get_inheritance, cached_user, stem,
  star_matches, has,
}
use chunkymonkey.Permission.Names.{same_name→≡, same_name_refl, star_matches→, star_matches←}

-- One of the names.
abbrev pub In : Name → List Name → Type 0
In p [] = ⊥
In p (x ∷ xs) = (p ≡ x) ⊎ In p xs

In-append_left : (p : Name) (xs ys : List Name) → In p xs → In p (xs ++ ys)
In-append_left p [] ys h = absurd h
In-append_left p (x ∷ xs) ys (inl here) = inl here
In-append_left p (x ∷ xs) ys (inr there) = inr (In-append_left p xs ys there)

In-append_right : (p : Name) (xs ys : List Name) → In p ys → In p (xs ++ ys)
In-append_right p [] ys h = h
In-append_right p (x ∷ xs) ys h = inr (In-append_right p xs ys h)

In-append : (p : Name) (xs ys : List Name) → In p (xs ++ ys) → In p xs ⊎ In p ys
In-append p [] ys h = inr h
In-append p (x ∷ xs) ys (inl here) = inl (inl here)
In-append p (x ∷ xs) ys (inr there) = elim (In-append p xs ys there) [
  | inl left ↦ inl (inr left)
  | inr right ↦ inr right
]

-- A permission of one of the groups, or of one that it inherits from.
pub data Inherits (groups : Groups) (p : Name) : List Name → Type 0 where
  own :
      (names : List Name) (name : Name) (group : Group)
      → In name names
      → lookup name groups ≡ some group
      → In p group.permissions
      → Inherits groups p names
  inherited :
      (names : List Name) (name : Name) (group : Group)
      → In name names
      → lookup name groups ≡ some group
      → Inherits groups p group.inheritance
      → Inherits groups p names

-- The permission is the node itself, or a star after a prefix of it.
abbrev pub Covers : Name → Name → Type 0
Covers p node =
    (p ≡ node) ⊎ ((s : Name) × (rest : Name) × (p ≡ s ++ (42 ∷ [])) × (node ≡ s ++ rest))

later :
    (groups : Groups) (p name : Name) (names : List Name)
    → Inherits groups p names
    → Inherits groups p (name ∷ names)
later groups p name names (own _ n group i e h) = own _ n group (inr i) e h
later groups p name names (inherited _ n group i e h) = inherited _ n group (inr i) e h

appended-some :
    (a b : Option (List Name)) (ps : List Name)
    → appended a b ≡ some ps
    → (x : List Name) × (y : List Name) × (a ≡ some x) × (b ≡ some y) × (ps ≡ x ++ y)
appended-some (some x) (some y) ps e = (x, y, refl, refl, cc)
appended-some (some x) none ps e = absurd cc
appended-some none b ps e = absurd cc

appended-start :
    (x : List Name) (b : Option (List Name)) (ps : List Name)
    → appended (some x) b ≡ some ps
    → (y : List Name) × (b ≡ some y) × (ps ≡ x ++ y)
appended-start x (some y) ps e = (y, refl, cc)
appended-start x none ps e = absurd cc

-- What the first of the names contributes, and the rest.
names_visited :
    (depth : ℕ) (groups : Groups) (name : Name) (names perms : List Name)
    → get_inheritance (suc depth) groups (name ∷ names) ≡ some perms
    → (group : Group) × (above : List Name) × (rest : List Name) × (lookup name groups ≡ some group)
      × (get_inheritance depth groups group.inheritance ≡ some above)
      × (get_inheritance (suc depth) groups names ≡ some rest)
      × (perms ≡ (group.permissions ++ above) ++ rest)
unfolding get_inheritance
names_visited depth groups name names perms e = go (lookup name groups) refl e
  where
    go :
        (found : Option Group)
        → lookup name groups ≡ found
        → (elim found as (λ x. Option (List Name)) [
          | none ↦ none
          | some group ↦
              appended
                (appended (some group.permissions) (get_inheritance depth groups group.inheritance))
                (get_inheritance (suc depth) groups names)
        ])
          ≡ some perms
        → (group : Group) × (above : List Name) × (rest : List Name) × (lookup name groups
            ≡ some group)
          × (get_inheritance depth groups group.inheritance ≡ some above)
          × (get_inheritance (suc depth) groups names ≡ some rest)
          × (perms ≡ (group.permissions ++ above) ++ rest)
    go none f e = absurd cc
    go (some group) f e =
        let (first, rest, e0, e1, e2) =
          appended-some
            (appended (some group.permissions) (get_inheritance depth groups group.inheritance))
            (get_inheritance (suc depth) groups names) perms e in
        let (x, above, e3, e4, e5) =
          appended-some (some group.permissions) (get_inheritance depth groups group.inheritance)
            first e0 in
        (group, above, rest, f, e4, e1, cc)

get_inheritance-Inherits :
    (depth : ℕ) (groups : Groups) (names perms : List Name) (p : Name)
    → get_inheritance depth groups names ≡ some perms
    → In p perms
    → Inherits groups p names
unfolding get_inheritance
get_inheritance-Inherits depth groups [] perms p e i = absurd (subst (In p) (some-inj e) i)
  where
    some-inj : some [] ≡ some perms → perms ≡ []
    some-inj e = cc
get_inheritance-Inherits zero groups (name ∷ names) perms p e i = absurd cc
get_inheritance-Inherits (suc depth) groups (name ∷ names) perms p e i =
    let (group, above, rest, found, e0, e1, e2) = names_visited depth groups name names perms e in
    elim (In-append p (group.permissions ++ above) rest (subst (In p) e2 i)) [
      | inl first ↦ elim (In-append p group.permissions above first) [
        | inl mine ↦ own _ name group (inl refl) found mine
        | inr up ↦
            inherited _ name group (inl refl) found
              (get_inheritance-Inherits depth groups group.inheritance above p e0 up)
      ]
      | inr last ↦
          later groups p name names
            (get_inheritance-Inherits (suc depth) groups names rest p e1 last)
    ]

some-inj_group : (g h : Group) → some g ≡ some h → g ≡ h
some-inj_group g h e = cc

-- A group that is named contributes its permissions and those that it inherits.
group_visited :
    (depth : ℕ) (groups : Groups) (names perms : List Name) (name : Name) (group : Group)
    → get_inheritance depth groups names ≡ some perms
    → In name names
    → lookup name groups ≡ some group
    → (d : ℕ) × (above : List Name) × (get_inheritance d groups group.inheritance ≡ some above)
      × ((p : Name) → In p (group.permissions ++ above) → In p perms)
unfolding get_inheritance
group_visited depth groups [] perms name group e i f = absurd i
group_visited zero groups (x ∷ names) perms name group e i f = absurd cc
group_visited (suc depth) groups (x ∷ names) perms name group e (inl here) f =
    let (group', above, rest, found, e0, e1, e2) = names_visited depth groups x names perms e in
    let same =
      some-inj_group group' group (sym found ∙ ap (λ (n : Name). lookup n groups) (sym here) ∙ f) in
    (
      depth,
      above,
      ap (λ (g : Group). get_inheritance depth groups g.inheritance) (sym same) ∙ e0,
      λ p i. subst (In p) (sym e2) (
          In-append_left p (group'.permissions ++ above) rest
            (subst (λ (g : Group). In p (g.permissions ++ above)) (sym same) i)),
    )
group_visited (suc depth) groups (x ∷ names) perms name group e (inr there) f =
    let (group', above, rest, found, e0, e1, e2) = names_visited depth groups x names perms e in
    let (d, above', e3, into) = group_visited (suc depth) groups names rest name group e1 there f in
    (
      d,
      above',
      e3,
      λ p i.
          subst (In p) (sym e2) (In-append_right p (group'.permissions ++ above) rest (into p i)),
    )

Inherits-get_inheritance :
    (groups : Groups) (p : Name) (names : List Name)
    → Inherits groups p names
    → (depth : ℕ) (perms : List Name) → get_inheritance depth groups names ≡ some perms
    → In p perms
Inherits-get_inheritance groups p names (own _ name group i f h) depth perms e =
    let (d, above, e0, into) = group_visited depth groups names perms name group e i f in
    into p (In-append_left p group.permissions above h)
Inherits-get_inheritance groups p names (inherited _ name group i f h) depth perms e =
    let (d, above, e0, into) = group_visited depth groups names perms name group e i f in
    into p (
      In-append_right p group.permissions above
        (Inherits-get_inheritance groups p group.inheritance h d above e0))

-- Three tests one after the other.
third :
    (a b c : Bool)
    → a ≡ false
    → b ≡ false
    → (if a then true else if b then true else c) ≡ true
    → c ≡ true
third a b c e f h = ground arith

one_of :
    (a b c : Bool)
    → (a ≡ true) ⊎ ((b ≡ true) ⊎ (c ≡ true))
    → (if a then true else if b then true else c) ≡ true
one_of true b c h = refl
one_of false true c h = refl
one_of false false true h = refl
one_of false false false h = absurd (ground arith)

-- The test of a list of permissions is whether one of them covers the node.
has→ :
    (perms : List Name) (node : Name)
    → has perms node ≡ true
    → (p : Name) × In p perms × Covers p node
unfolding has
has→ [] node h = absurd cc
has→ (p ∷ ps) node h = elim (Bool-cases (same_name p node)) [
  | inl same ↦ (p, inl refl, inl (same_name→≡ p node same))
  | inr other ↦ elim (Bool-cases (star_matches (stem p) node)) [
    | inl star ↦ (p, inl refl, inr (star_matches→ p node star))
    | inr no_star ↦ let (q, i, c) = has→ ps node (third _ _ _ other no_star h) in (q, inr i, c)
  ]
]

has← : (perms : List Name) (node p : Name) → In p perms → Covers p node → has perms node ≡ true
unfolding has
has← [] node p i c = absurd i
has← (x ∷ ps) node p (inl here) (inl same) =
    one_of (same_name x node) (star_matches (stem x) node) (has ps node)
      (inl (ap (λ (y : Name). same_name y node) (sym here ∙ same) ∙ same_name_refl node))
has← (x ∷ ps) node p (inl here) (inr (s, rest, e, f)) =
    one_of (same_name x node) (star_matches (stem x) node) (has ps node)
      (inr (inl (star_matches← x node s rest (sym here ∙ e) f)))
has← (x ∷ ps) node p (inr there) c =
    one_of (same_name x node) (star_matches (stem x) node) (has ps node)
      (inr (inr (has← ps node p there c)))

-- A user whose permissions could be cached has a permission exactly if it is covered by one that is
-- his own or that one of his groups has, itself or by inheritance.
pub has-cached_user :
    (depth : ℕ) (groups : Groups) (user : User) (perms : List Name) (node : Name)
    → cached_user depth groups user ≡ some perms
    → (has perms node ≡ true)
      ↔ ((p : Name) × (In p user.permissions ⊎ Inherits groups p user.groups) × Covers p node)
unfolding cached_user
has-cached_user depth groups user perms node e =
    let (others, e1, e2) =
      appended-start user.permissions (get_inheritance depth groups user.groups) perms e in
    (
      λ h.
          let (p, i, c) = has→ perms node h in
          (
            p,
            elim (In-append p user.permissions others (subst (In p) e2 i)) [
              | inl mine ↦ inl mine
              | inr theirs ↦
                  inr (get_inheritance-Inherits depth groups user.groups others p e1 theirs)
            ],
            c,
          ),
      λ (p, i, c).
          has← perms node p
            (subst (In p) (sym e2) (elim i [
              | inl mine ↦ In-append_left p user.permissions others mine
              | inr theirs ↦
                  In-append_right p user.permissions others
                    (Inherits-get_inheritance groups p user.groups theirs depth others e1)
            ]))
            c,
    )
