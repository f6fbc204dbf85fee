-- ===== src/Format.antt =====
-- Versions in order, and the address of a site (frontend/src/utils/format.ts).
pub mod Order
use phpo.Base.{
  ℕ, ◌==◌, ltb, Bool, not, ◌||◌, List, [], ◌∷◌, ◌++◌, Text, lit, split, includes, is_given, decimal,
  map, if◌then◌else◌,
}
use phpo.App.{Site}

-- The sign of the number that `cmpVer` returns: the first version is sorted before the second, the same,
-- or after it.
pub data Sign : Type 0 where
  negative zero_sign positive : Sign

abbrev pub compare_parts : ℕ → ℕ → Sign → Sign
compare_parts x y rest = if x == y then rest else if ltb y x then negative else positive

-- The loop over the parts; a part that is missing counts as 0.
unfoldable pub cmp_parts : List ℕ → List ℕ → Sign
cmp_parts [] [] = zero_sign
cmp_parts [] (y ∷ ys) = let rest = cmp_parts [] ys in compare_parts 0 y rest
cmp_parts (x ∷ xs) [] = let rest = cmp_parts xs [] in compare_parts x 0 rest
cmp_parts (x ∷ xs) (y ∷ ys) = let rest = cmp_parts xs ys in compare_parts x y rest

-- `number` is what `Number(part) || 0` makes of a part.
module _ (number : Text → ℕ) where
  unfoldable pub cmp_ver : Text → Text → Sign
  cmp_ver a b = cmp_parts (map number (split b'.' a)) (map number (split b'.' b))

-- A site without a domain has no address; port 0 counts as no port.
unfoldable pub site_url : Site → Text
site_url site =
    if not (is_given site.domain)
    then []
    else if site.port == 443
    then lit "https://" ++ site.domain
    else if site.port == 0 || site.port == 80
    then lit "http://" ++ site.domain
    else lit "http://" ++ (site.domain ++ (lit ":" ++ decimal site.port))

unfoldable pub needs_port : Text → Bool
unfolding includes
needs_port kind = includes (lit "mysql" ∷ lit "pgsql" ∷ lit "redis" ∷ lit "nginx" ∷ []) kind

unfoldable pub needs_password : Text → Bool
unfolding includes
needs_password kind = includes (lit "mysql" ∷ lit "pgsql" ∷ lit "redis" ∷ []) kind
