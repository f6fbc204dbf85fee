-- ===== src/Messages/Table.antt =====
-- The table of known sentences, and the match of a whole line: TABLE, FRAGMENT_CODES, HAN and
-- `matchShape` of frontend/src/utils/errShapes.ts.
use phpo.Base.{
  ℕ, ◌==◌, ltb, leb, Bool, ◌&&◌, ◌||◌, Option, none, some, List, [], ◌∷◌, ◌++◌, map, Text, lit,
  str_eq, starts_with, any, drop, if◌then◌else◌,
}
use phpo.Preflight.Validate.{is_space, drop_while}
use phpo.Messages.Shapes.{Shape, Compiled, key_count, literal_count, compile, exec}
use phpo.Messages.Signals1.{signals_1}
use phpo.Messages.Signals2.{signals_2}
use phpo.Messages.Signals3.{signals_3}

abbrev pub signals : List (Text × Text)
signals = signals_1 ++ (signals_2 ++ signals_3)

-- Whether the sort's comparison is negative: fewer placeholders, or as many and more literal text.
abbrev pub is_sooner : Compiled → Compiled → Bool
is_sooner a b =
    ltb (key_count a) (key_count b)
    || (key_count a == key_count b && ltb (literal_count b) (literal_count a))

-- The stable sort.
unfoldable pub insert_shape : Compiled → List Compiled → List Compiled
insert_shape a [] = a ∷ []
insert_shape a (b ∷ bs) = if is_sooner b a then b ∷ insert_shape a bs else a ∷ b ∷ bs

unfoldable pub sort_shapes : List Compiled → List Compiled
unfolding insert_shape
sort_shapes [] = []
sort_shapes (a ∷ as_) = insert_shape a (sort_shapes as_)

unfoldable pub table : List Compiled
unfolding sort_shapes compile
table = sort_shapes (map compile signals)

abbrev pub fragments : List (Text × Text)
fragments =
    (lit "未指定", lit "err.fragUnspecified")
    ∷ (lit "其他程序", lit "err.fragOtherProgram")
    ∷ (lit "本机其它进程", lit "err.fragLocalProcess")
    ∷ (lit "docker 未安装", lit "err.fragDockerMissing")
    ∷ (lit "docker 未运行", lit "err.fragDockerDown")
    ∷ (lit "docker socket 权限不足", lit "err.fragDockerPerm")
    ∷ []

-- `HAN.test(s)`: a character from U+4E00 to U+9FFF.
abbrev pub is_han : ℕ → Bool
is_han c = leb 0x4E00 c && leb c 0x9FFF

abbrev pub has_han : Text → Bool
has_han s = any is_han s

-- `line.replace(/^(?:RuntimeError|Error):\s*/, '')`.
unfoldable pub strip_error_prefix : Text → Text
unfolding starts_with drop_while is_space
strip_error_prefix line =
    if starts_with line (lit "RuntimeError:")
    then drop_while is_space (drop 13 line)
    else if starts_with line (lit "Error:")
    then drop_while is_space (drop 6 line)
    else line

pub record ShapeMatch : Type 0 where
  pub code : Text
  pub params : List (Text × Text)

-- Each name with its capture.
abbrev pub zip_keys : List (Text × Text) → List Text → List (Text × Text)
zip_keys [] vs = []
zip_keys ((key, literal) ∷ rest) [] = []
zip_keys ((key, literal) ∷ rest) (v ∷ vs) = (key, v) ∷ zip_keys rest vs

-- `e.re.exec(line) ?? (stripped !== line ? e.re.exec(stripped) : null)`.
abbrev pub first_match : Option (List Text) → Option (List Text) → Option (List Text)
first_match (some vs) later = some vs
first_match none later = later

unfoldable pub exec_either : Shape → Text → Text → Option (List Text)
unfolding exec str_eq
exec_either s line stripped =
    first_match (exec s line) (if str_eq stripped line then none else exec s stripped)

-- What the loop over the table does with an entry: its captures end the loop.
abbrev pub hit_or : Compiled → Option (List Text) → Option ShapeMatch → Option ShapeMatch
hit_or e (some vs) later = some (record { code = e.code; params = zip_keys e.shape.rest vs })
hit_or e none later = later

unfoldable pub match_in : List Compiled → Text → Text → Option ShapeMatch
unfolding exec_either
match_in [] line stripped = none
match_in (e ∷ es) line stripped =
    hit_or e (exec_either e.shape line stripped) (match_in es line stripped)

unfoldable pub match_shape : Text → Option ShapeMatch
unfolding match_in strip_error_prefix table
match_shape line = match_in table line (strip_error_prefix line)
