-- ===== src/Preflight/Validate.antt =====
-- The checks of single inputs in usePreflight.ts: versions, domains, site roots, extensions, registry
-- hosts.
use phpo.Base.{
  ℕ, ◌-◌, leb, ltb, ◌==◌, Bool, true, false, not, ◌&&◌, ◌||◌, [], ◌∷◌, ◌++◌, reverse, Text, lit,
  str_eq, starts_with, contains, is_given, to_lower, length, take, drop, any, if◌then◌else◌,
}
use phpo.Base.Regex.{
  Regex, chars, seq, star, matches, opt, plus, at_most, one, is_digit, is_lower, is_upper,
}
use phpo.Preflight.{
  Checked, good, bad, version_empty, version_invalid, domain_empty, domain_invalid, root_empty,
  path_traversal, registry_host_empty, registry_host_space, registry_host_path,
  registry_host_invalid,
}

-- What `trim` and `\s` take for white space.
unfoldable pub is_space : ℕ → Bool
is_space c =
    (leb 9 c && leb c 13)
    || c == 32
    || c == 0xA0
    || c == 0x1680
    || (leb 0x2000 c && leb c 0x200A)
    || c == 0x2028
    || c == 0x2029
    || c == 0x202F
    || c == 0x205F
    || c == 0x3000
    || c == 0xFEFF

-- Drops the leading characters that pass a test.
unfoldable pub drop_while : (ℕ → Bool) → Text → Text
drop_while p [] = []
drop_while p (c ∷ s) = if p c then drop_while p s else c ∷ s

unfoldable pub drop_while_end : (ℕ → Bool) → Text → Text
unfolding drop_while
drop_while_end p s = reverse (drop_while p (reverse s))

unfoldable pub trim : Text → Text
unfolding drop_while drop_while_end is_space
trim s = drop_while_end is_space (drop_while is_space s)

abbrev pub is_slash : ℕ → Bool
is_slash c = c == b'/'

-- `.replace(/\/+/g, '/')`, with whether the character before was a slash.
unfoldable pub collapse : Bool → Text → Text
collapse after [] = []
collapse after (c ∷ s) =
    let rest = collapse (is_slash c) s in if after && is_slash c then rest else c ∷ rest

unfoldable pub norm_path : Text → Text
unfolding trim collapse drop_while_end
norm_path p = drop_while_end is_slash (collapse false (trim p))

-- Two dots that end here or before a slash.
abbrev pub is_dots : Text → Bool
is_dots (d ∷ (e ∷ [])) = d == b'.' && e == b'.'
is_dots (d ∷ (e ∷ (f ∷ _))) = d == b'.' && e == b'.' && is_slash f
is_dots _ = false

-- `/(^|\/)\.\.(\/|$)/.test(p)`, with whether a part begins here.
unfoldable pub has_traversal_from : Bool → Text → Bool
has_traversal_from start [] = false
has_traversal_from start (c ∷ s) = (start && is_dots (c ∷ s)) || has_traversal_from (is_slash c) s

unfoldable pub has_traversal : Text → Bool
unfolding has_traversal_from
has_traversal p = has_traversal_from true p

-- `/[/\\\x00-\x1f\s]/`, at one character.
abbrev pub is_version_breaker : ℕ → Bool
is_version_breaker c = is_slash c || c == 0x5C || leb c 0x1F || is_space c

unfoldable pub validate_version : Text → Checked Text
unfolding trim contains is_space str_eq
validate_version version =
    let v = trim version in
    if not (is_given v)
    then bad version_empty
    else if str_eq v (lit ".") || str_eq v (lit "..") || contains v (lit "..")
    then bad (version_invalid v)
    else if any is_version_breaker v
    then bad (version_invalid v)
    else if ltb 128 (length v)
    then bad (version_invalid v)
    else good v

abbrev pub is_label_end : ℕ → Bool
is_label_end c = is_lower c || is_digit c

abbrev pub is_label_char : ℕ → Bool
is_label_char c = is_lower c || is_digit c || c == b'-'

-- `[a-z0-9]([a-z0-9-]*[a-z0-9])?`
abbrev pub label_regex : Regex
label_regex = seq (chars is_label_end) (opt (seq (star (chars is_label_char)) (chars is_label_end)))

abbrev pub domain_regex : Regex
domain_regex = seq label_regex (star (seq (one b'.') label_regex))

unfoldable pub validate_domain : Text → Checked Text
unfolding trim matches
validate_domain domain =
    let d = to_lower (trim domain) in
    if not (is_given d) || ltb 253 (length d)
    then bad domain_empty
    else if matches domain_regex d
    then good d
    else bad (domain_invalid d)

-- A site root that passes, and whether it lies outside the site directory `www`.
unfoldable pub validate_site_root : Text → Text → Checked (Text × Bool)
unfolding norm_path has_traversal str_eq starts_with
validate_site_root www_root root =
    let r = norm_path root in
    let www = norm_path www_root in
    if not (is_given r)
    then bad root_empty
    else if has_traversal r
    then bad path_traversal
    else good (r, not (str_eq r www || starts_with r (www ++ lit "/")))

abbrev pub is_ext_char : ℕ → Bool
is_ext_char c = is_lower c || is_upper c || is_digit c || c == b'.' || c == b'_' || c == b'-'

unfoldable pub validate_ext : Text → Bool
unfolding trim matches
validate_ext name = matches (plus (chars is_ext_char)) (trim name)

unfoldable pub strip_prefix : Text → Text → Text
unfolding starts_with
strip_prefix p s = if starts_with s p then drop (length p) s else s

unfoldable pub normalize_registry_host : Text → Text
unfolding trim strip_prefix drop_while_end starts_with
normalize_registry_host s =
    let h =
      drop_while_end is_slash
        (strip_prefix (lit "http://") (strip_prefix (lit "https://") (trim s))) in
    trim (if starts_with (reverse h) (lit "2v/") then take (length h - 3) h else h)

abbrev pub is_host_end : ℕ → Bool
is_host_end c = is_lower c || is_upper c || is_digit c

-- `[a-zA-Z0-9]([a-zA-Z0-9._-]*[a-zA-Z0-9])?(:[0-9]{1,5})?`
abbrev pub registry_host_regex : Regex
registry_host_regex =
    seq (seq (chars is_host_end) (opt (seq (star (chars is_ext_char)) (chars is_host_end))))
      (opt (seq (one b':') (seq (chars is_digit) (at_most 4 (chars is_digit)))))

unfoldable pub validate_registry_host : Text → Checked Text
unfolding normalize_registry_host matches
validate_registry_host s =
    let h = normalize_registry_host s in
    if not (is_given h)
    then bad registry_host_empty
    else if any (λ c. c == 32 || c == 9 || c == 0) h
    then bad (registry_host_space s)
    else if any is_slash h
    then bad (registry_host_path s)
    else if matches registry_host_regex h
    then good h
    else bad (registry_host_invalid s)
