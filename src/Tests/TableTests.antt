-- ===== src/Tests/TableTests.antt =====
-- The tables of extensions, mounts and versions at concrete inputs.
use phpo.Base.{split, ◌≡◌, refl, Bool, true, ◌&&◌, lit, str_eq}
use phpo.Catalog.{ExtDef, ext_catalog, ext_matches_version, catalog_for}
use phpo.Catalog.Offered.{count, catalog_for_lem}
use phpo.Preflight.Ports.{digits_value}
use phpo.Format.{negative, cmp_parts, cmp_ver}
use phpo.Format.Order.{flip, is_before, cmp_ver-order}

abbrev is_sodium : ExtDef → Bool
is_sodium e = str_eq e.name (lit "sodium")

catalog_for_lem_example :
    count is_sodium (catalog_for (lit "7.4"))
    ≡ count (λ e. ext_matches_version e (lit "7.4") && is_sodium e) ext_catalog
catalog_for_lem_example = catalog_for_lem is_sodium (lit "7.4")

newer_first : cmp_ver (digits_value 0) (lit "8.10") (lit "8.9") ≡ negative
unfolding cmp_ver cmp_parts split digits_value
newer_first = refl

cmp_ver-order_example :
    (cmp_ver (digits_value 0) (lit "8.9") (lit "8.10")
      ≡ flip (cmp_ver (digits_value 0) (lit "8.10") (lit "8.9")))
    × (is_before (cmp_ver (digits_value 0) (lit "8.10") (lit "8.9")) ≡ true
        → is_before (cmp_ver (digits_value 0) (lit "8.9") (lit "8")) ≡ true
        → is_before (cmp_ver (digits_value 0) (lit "8.10") (lit "8")) ≡ true)
cmp_ver-order_example = cmp_ver-order (digits_value 0) (lit "8.10") (lit "8.9") (lit "8")
