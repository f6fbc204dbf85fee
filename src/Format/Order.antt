-- ===== src/Format/Order.antt =====
-- `cmpVer` puts versions into one order.
use phpo.Base.{ℕ, ◌≡◌, refl, Bool, true, false, List, [], ◌∷◌, Text, split, map, arith}
use phpo.Format.{Sign, negative, zero_sign, positive, cmp_parts, cmp_ver}

abbrev pub flip : Sign → Sign
flip negative = positive
flip zero_sign = zero_sign
flip positive = negative

cmp_parts-flip : (a b : List ℕ) → cmp_parts b a ≡ flip (cmp_parts a b)
unfolding cmp_parts
cmp_parts-flip [] [] = refl
cmp_parts-flip [] (y ∷ ys) = ground (arith, cmp_parts-flip [] ys)
cmp_parts-flip (x ∷ xs) [] = ground (arith, cmp_parts-flip xs [])
cmp_parts-flip (x ∷ xs) (y ∷ ys) = ground (arith, cmp_parts-flip xs ys)

-- Whether the first is sorted before the second, or the same.
abbrev pub is_before : Sign → Bool
is_before negative = true
is_before zero_sign = true
is_before positive = false

cmp_parts_trans :
    (a b c : List ℕ)
    → is_before (cmp_parts a b) ≡ true
    → is_before (cmp_parts b c) ≡ true
    → is_before (cmp_parts a c) ≡ true
unfolding cmp_parts
cmp_parts_trans [] [] [] h g = refl
cmp_parts_trans [] [] (z ∷ c) h g = g
cmp_parts_trans [] (y ∷ b) [] h g = refl
cmp_parts_trans [] (y ∷ b) (z ∷ c) h g = ground (arith, cmp_parts_trans [] b c)
cmp_parts_trans (x ∷ a) [] [] h g = h
cmp_parts_trans (x ∷ a) [] (z ∷ c) h g = ground (arith, cmp_parts_trans a [] c)
cmp_parts_trans (x ∷ a) (y ∷ b) [] h g = ground (arith, cmp_parts_trans a b [])
cmp_parts_trans (x ∷ a) (y ∷ b) (z ∷ c) h g = ground (arith, cmp_parts_trans a b c)

-- `cmpVer` orders versions, whatever its parts are read as: swapping the versions swaps the sign, and
-- the order is transitive.
pub cmp_ver-order :
    (number : Text → ℕ) (a b c : Text)
    → (cmp_ver number b a ≡ flip (cmp_ver number a b))
      × (is_before (cmp_ver number a b) ≡ true
          → is_before (cmp_ver number b c) ≡ true
          → is_before (cmp_ver number a c) ≡ true)
unfolding cmp_ver
cmp_ver-order number a b c =
    let parts : Text → List ℕ = λ t. map number (split b'.' t) in
    (cmp_parts-flip (parts a) (parts b), λ h g. cmp_parts_trans (parts a) (parts b) (parts c) h g)
