-- ===== src/Base/Regex.antt =====
-- Regular expressions without captures, matched against a whole text by derivatives.
use phpo.Base.{ℕ, leb, ◌==◌, zero, suc, Bool, true, false, ◌&&◌, ◌||◌, [], ◌∷◌, Text, if◌then◌else◌}

pub data Regex : Type 0 where
  never eps : Regex
  chars : (ℕ → Bool) → Regex
  seq alt : Regex → Regex → Regex
  star : Regex → Regex

unfoldable pub nullable : Regex → Bool
nullable never = false
nullable eps = true
nullable (chars p) = false
nullable (seq r q) = nullable r && nullable q
nullable (alt r q) = nullable r || nullable q
nullable (star r) = true

-- Joins that drop what can never match, to keep derivatives small.
unfoldable pub mk_seq : Regex → Regex → Regex
mk_seq never q = never
mk_seq eps q = q
mk_seq r q = seq r q

unfoldable pub mk_alt : Regex → Regex → Regex
mk_alt never q = q
mk_alt r never = r
mk_alt r q = alt r q

unfoldable pub der : ℕ → Regex → Regex
unfolding mk_seq mk_alt nullable
der c never = never
der c eps = never
der c (chars p) = if p c then eps else never
der c (seq r q) =
    let first = mk_seq (der c r) q in
    let second = der c q in if nullable r then mk_alt first second else first
der c (alt r q) = mk_alt (der c r) (der c q)
der c (star r) = mk_seq (der c r) (star r)

-- `/^(r)$/.test(s)`.
unfoldable pub matches : Regex → Text → Bool
unfolding der nullable
matches r [] = nullable r
matches r (c ∷ s) = matches (der c r) s

abbrev pub opt : Regex → Regex
opt r = alt eps r

abbrev pub plus : Regex → Regex
plus r = seq r (star r)

-- `r{0,n}`.
abbrev pub at_most : ℕ → Regex → Regex
at_most zero r = eps
at_most (suc n) r = alt eps (seq r (at_most n r))

abbrev pub one : ℕ → Regex
one c = chars (λ x. x == c)

abbrev pub is_digit : ℕ → Bool
is_digit c = leb b'0' c && leb c b'9'

abbrev pub is_lower : ℕ → Bool
is_lower c = leb b'a' c && leb c b'z'

abbrev pub is_upper : ℕ → Bool
is_upper c = leb b'A' c && leb c b'Z'
