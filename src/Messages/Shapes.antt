-- ===== src/Messages/Shapes.antt =====
-- One shape of a sentence: `compile` of frontend/src/utils/errShapes.ts, and the match of its regular
-- expression `^first([\s\S]+?)literal…$` against a line.
use phpo.Base.{
  ℕ, ◌+◌, ◌==◌, Bool, ◌&&◌, ◌||◌, Option, none, some, List, [], ◌∷◌, ◌++◌, Text, reverse, length,
  is_given, if◌then◌else◌,
}
use phpo.Base.Regex.{is_digit, is_lower, is_upper}

-- The literal before the first placeholder, and each placeholder's name with the literal after it.
pub record Shape : Type 0 where
  pub first : Text
  pub rest : List (Text × Text)

abbrev pub is_word : ℕ → Bool
is_word c = is_digit c || is_lower c || is_upper c || c == b'_'

-- A character, or a text, before the shape.
abbrev pub cons_first : ℕ → Shape → Shape
cons_first c s = record s { first = c ∷ s.first }

abbrev pub append_first : Text → Shape → Shape
append_first t s = record s { first = t ++ s.first }

abbrev pub add_key : Text → Shape → Shape
add_key key s = record { first = []; rest = (key, s.first) ∷ s.rest }

-- `zh.split(/\{(\w+)\}/)`. The first argument is what stands since an open brace, backwards, if only
-- word characters do.
unfoldable pub parse_shape : Option Text → Text → Shape
parse_shape none [] = record { first = []; rest = [] }
parse_shape (some name) [] = record { first = b'{' ∷ reverse name; rest = [] }
parse_shape none (c ∷ s) =
    let inside = parse_shape (some []) s in
    let outside = cons_first c (parse_shape none s) in if c == b'{' then inside else outside
parse_shape (some name) (c ∷ s) =
    let key = add_key (reverse name) (parse_shape none s) in
    let longer = parse_shape (some (c ∷ name)) s in
    let again = append_first (b'{' ∷ reverse name) (parse_shape (some []) s) in
    let plain = append_first (b'{' ∷ reverse name) (cons_first c (parse_shape none s)) in
    if c == b'}' && is_given name
    then key
    else if is_word c
    then longer
    else if c == b'{'
    then again
    else plain

pub record Compiled : Type 0 where
  pub shape : Shape
  pub code : Text

-- `keys.length` and `literal` of a compiled shape.
abbrev pub key_count : Compiled → ℕ
key_count c = length c.shape.rest

abbrev pub literals : List (Text × Text) → ℕ
literals [] = 0
literals ((key, text) ∷ rest) = length text + literals rest

abbrev pub literal_count : Compiled → ℕ
literal_count c = length c.shape.first + literals c.shape.rest

unfoldable pub compile : Text × Text → Compiled
unfolding parse_shape
compile (zh, code) = record { shape = parse_shape none zh; code = code }

-- What follows a literal.
unfoldable pub strip_literal : Text → Text → Option Text
strip_literal [] t = some t
strip_literal (c ∷ l) [] = none
strip_literal (c ∷ l) (d ∷ t) = let rest = strip_literal l t in if c == d then rest else none

abbrev pub and_then : Option Text → (Text → Option (List Text)) → Option (List Text)
and_then none k = none
and_then (some t) k = k t

-- A character that is the whole capture, or the first of a longer one.
abbrev pub shortest : ℕ → Option (List Text) → Option (Text × List Text) → Option (Text × List Text)
shortest c (some vs) longer = some (c ∷ [], vs)
shortest c none none = none
shortest c none (some (v, vs)) = some (c ∷ v, vs)

-- `([\s\S]+?)` before a literal and what follows it, `k`: the shortest text, of at least one character,
-- after which the rest matches. The result is that text and the rest's captures.
unfoldable pub capture : Text → (Text → Option (List Text)) → Text → Option (Text × List Text)
unfolding strip_literal
capture literal k [] = none
capture literal k (c ∷ t) = shortest c (and_then (strip_literal literal t) k) (capture literal k t)

abbrev pub all_values : Option (Text × List Text) → Option (List Text)
all_values none = none
all_values (some (v, vs)) = some (v ∷ vs)

-- The captures of the placeholders that are left, up to the end of the line.
unfoldable pub match_rest : List (Text × Text) → Text → Option (List Text)
unfolding capture
match_rest [] [] = some []
match_rest [] (c ∷ t) = none
match_rest ((key, literal) ∷ rest) t = all_values (capture literal (match_rest rest) t)

unfoldable pub exec : Shape → Text → Option (List Text)
unfolding match_rest strip_literal
exec s line = and_then (strip_literal s.first line) (match_rest s.rest)
