-- ===== src/Catalog/Offered.antt =====
-- Proofs about frontend/src/constants/ext.ts: the offer for a version of PHP.
use phpo.Base.{
  ℕ, ◌+◌, ◌≤◌, ◌<◌, ◌≡◌, refl, ◌∙◌, ◌↔◌, ◌⊎◌, Bool, true, ◌&&◌, some, List, [], ◌∷◌, ◌++◌, Text,
  filter, if◌then◌else◌, arith,
}
use phpo.Catalog.{
  Group, ExtDef, ext_groups, group_eq, ext_catalog, is_at_least, ext_matches_version, by_group,
  catalog_for,
}

abbrev one : Bool → ℕ
one b = if b then 1 else 0

-- The sum of `f` over a list.
abbrev total : (ExtDef → ℕ) → List ExtDef → ℕ
total f [] = 0
total f (x ∷ xs) = f x + total f xs

-- How many entries of a list satisfy `p`.
abbrev pub count : (ExtDef → Bool) → List ExtDef → ℕ
count p xs = total (λ e. one (p e)) xs

count-append :
    (p : ExtDef → Bool) (xs ys : List ExtDef) → count p (xs ++ ys) ≡ count p xs + count p ys
count-append p [] ys = omega arith
count-append p (x ∷ xs) ys = ground (arith, count-append p xs ys)

count-filter :
    (p q : ExtDef → Bool) (xs : List ExtDef) → count p (filter q xs) ≡ count (λ e. q e && p e) xs
count-filter p q [] = refl
count-filter p q (x ∷ xs) = ground (arith, count-filter p q xs)

total_add :
    (f g : ExtDef → ℕ) (xs : List ExtDef) → total f xs + total g xs ≡ total (λ e. f e + g e) xs
total_add f g [] = refl
total_add f g (x ∷ xs) = omega (arith, total_add f g xs)

total_same :
    (f g : ExtDef → ℕ) (xs : List ExtDef) → ((e : ExtDef) → f e ≡ g e) → total f xs ≡ total g xs
total_same f g [] h = refl
total_same f g (x ∷ xs) h = omega (arith, h x, total_same f g xs h)

-- How often an entry of the group `g` is shown among the groups, if it is shown at all.
abbrev shown : Group → Bool → List Group → ℕ
shown g b [] = 0
shown g b (h ∷ gs) = one (group_eq g h && b) + shown g b gs

count-by_group :
    (p : ExtDef → Bool) (gs : List Group) (xs : List ExtDef)
    → count p (by_group gs xs) ≡ total (λ e. shown e.group (p e) gs) xs
unfolding by_group
count-by_group p [] [] = refl
count-by_group p [] (x ∷ xs) = omega (arith, count-by_group p [] xs)
count-by_group p (g ∷ gs) xs = omega (
  arith,
  count-append p (filter (λ e. group_eq e.group g) xs) (by_group gs xs),
  count-filter p (λ e. group_eq e.group g) xs,
  count-by_group p gs xs,
  total_add (λ e. one (group_eq e.group g && p e)) (λ e. shown e.group (p e) gs) xs,
)

shown_once : (g : Group) (b : Bool) → shown g b ext_groups ≡ one b
shown_once g b = ground arith

-- Each extension of the catalogue that exists in a version is offered for it exactly as often as the
-- catalogue lists it, and no other is offered: whatever entries are asked for, showing them by groups
-- neither loses one, nor adds one, nor shows one twice.
pub catalog_for_lem :
    (p : ExtDef → Bool) (version : Text)
    → count p (catalog_for version) ≡ count (λ e. ext_matches_version e version && p e) ext_catalog
unfolding catalog_for
catalog_for_lem p version =
    count-by_group p ext_groups (filter (λ e. ext_matches_version e version) ext_catalog)
    ∙ total_same (λ e. shown e.group (p e) ext_groups) (λ e. one (p e))
        (filter (λ e. ext_matches_version e version) ext_catalog) (λ e. shown_once e.group (p e))
    ∙ count-filter p (λ e. ext_matches_version e version) ext_catalog

-- The comparison of two versions by one number is the comparison by the major number first, and by the
-- minor one where the majors are the same, as long as the minor numbers are below 100.
pub is_at_least_iff :
    (a b c d : ℕ)
    → b < 100
    → d < 100
    → (is_at_least (some (a, b)) (some (c, d)) ≡ true) ↔ ((c < a) ⊎ ((a ≡ c) × (d ≤ b)))
unfolding is_at_least
is_at_least_iff a b c d h g = ground arith
