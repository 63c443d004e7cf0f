-- ===== src/Permission/Names.antt =====
-- What the tests on names in src/chunkymonkey/permission/jsonpermission.go decide.
use chunkymonkey.Base.{
  ℕ, ◌≡◌, refl, ap, ◌∙◌, Bool, true, false, ◌&&◌, Option, none, some, [], ◌∷◌, ◌++◌, arith, ◌==◌,
  ==_iff,
}
use chunkymonkey.Permission.{Name, same_name, stem, has_prefix, star_matches}

and_true : (x y : Bool) → (x && y) ≡ true → (x ≡ true) × (y ≡ true)
and_true true y h = (refl, h)
and_true false y h = absurd cc

pub same_name→≡ : (a b : Name) → same_name a b ≡ true → a ≡ b
unfolding same_name
same_name→≡ [] [] h = refl
same_name→≡ [] (b ∷ bs) h = cc
same_name→≡ (a ∷ cs) [] h = cc
same_name→≡ (a ∷ cs) (b ∷ bs) h =
    let (head, tail) = and_true (a == b) (same_name cs bs) h in
    ap (λ (x : ℕ). x ∷ cs) ((==_iff a b).0 head) ∙ ap (λ (t : Name). b ∷ t) (same_name→≡ cs bs tail)

pub same_name_refl : (a : Name) → same_name a a ≡ true
unfolding same_name
same_name_refl [] = refl
same_name_refl (a ∷ cs) = rw (same_name_refl cs) (ground arith)

pub has_prefix→≡ : (node s : Name) → has_prefix node s ≡ true → (rest : Name) × (node ≡ s ++ rest)
unfolding has_prefix
has_prefix→≡ node [] h = (node, refl)
has_prefix→≡ [] (c ∷ cs) h = absurd cc
has_prefix→≡ (b ∷ bs) (c ∷ cs) h =
    let (head, tail) = and_true (b == c) (has_prefix bs cs) h in
    let (rest, eq) = has_prefix→≡ bs cs tail in
    (rest, ap (λ (x : ℕ). x ∷ bs) ((==_iff b c).0 head) ∙ ap (λ (t : Name). c ∷ t) eq)

pub has_prefix-append : (s rest : Name) → has_prefix (s ++ rest) s ≡ true
unfolding has_prefix
has_prefix-append [] rest = refl
has_prefix-append (c ∷ cs) rest = rw (has_prefix-append cs rest) (ground arith)

some_inj_name : (t s : Name) → some t ≡ some s → t ≡ s
some_inj_name t s e = cc

pub stem→≡ : (p s : Name) → stem p ≡ some s → p ≡ s ++ (42 ∷ [])
unfolding stem
stem→≡ [] s h = cc
stem→≡ (c ∷ []) s h = ground arith
stem→≡ (c ∷ d ∷ cs) s h = go (stem (d ∷ cs)) refl h (stem→≡ (d ∷ cs))
  where
    go :
        (found : Option Name)
        → stem (d ∷ cs) ≡ found
        → (elim found as (λ x. Option Name) [ none ↦ none | some t ↦ some (c ∷ t) ]) ≡ some s
        → ((t : Name) → stem (d ∷ cs) ≡ some t → d ∷ cs ≡ t ++ (42 ∷ []))
        → c ∷ d ∷ cs ≡ s ++ (42 ∷ [])
    go none f e shorter = absurd cc
    go (some t) f e shorter =
        ap (λ (x : Name). c ∷ x) (shorter t f)
        ∙ ap (λ (x : Name). x ++ (42 ∷ [])) (some_inj_name (c ∷ t) s e)

pub stem-append : (s : Name) → stem (s ++ (42 ∷ [])) ≡ some s
unfolding stem
stem-append [] = refl
stem-append (c ∷ []) = refl
stem-append (c ∷ d ∷ cs) = rw (stem-append (d ∷ cs))

-- A star at the end of a permission stands for any bytes.
pub star_matches→ :
    (p node : Name)
    → star_matches (stem p) node ≡ true
    → (s : Name) × (rest : Name) × (p ≡ s ++ (42 ∷ [])) × (node ≡ s ++ rest)
star_matches→ p node h = go (stem p) refl h
  where
    go :
        (found : Option Name)
        → stem p ≡ found
        → star_matches found node ≡ true
        → (s : Name) × (rest : Name) × (p ≡ s ++ (42 ∷ [])) × (node ≡ s ++ rest)
    go none f e = absurd cc
    go (some s) f e = let (rest, eq) = has_prefix→≡ node s e in (s, rest, stem→≡ p s f, eq)

pub star_matches← :
    (p node s rest : Name)
    → p ≡ s ++ (42 ∷ [])
    → node ≡ s ++ rest
    → star_matches (stem p) node ≡ true
star_matches← p node s rest e f =
    ap (λ (x : Name). star_matches (stem x) node) e
    ∙ ap (λ (o : Option Name). star_matches o node) (stem-append s)
    ∙ ap (λ (x : Name). has_prefix x s) f
    ∙ has_prefix-append s rest
