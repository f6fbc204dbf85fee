-- ===== src/Messages/Render.antt =====
-- A message as the user reads it: frontend/src/utils/msgText.ts, backendMsg.ts and taskLabel.ts of the
-- same directory. The texts of the current language and `decodeURIComponent`, which has no result where
-- it throws, are parameters. `msgText` and the functions it calls go round as long as values hold known
-- sentences: the rounds are bounded by the first argument, and without enough there is no result.
use phpo.Base.{
  ℕ, zero, suc, ◌+◌, ◌==◌, ltb, not, ◌&&◌, ◌||◌, Option, none, some, or_else, List, [], ◌∷◌, Text,
  lit, str_eq, starts_with, is_given, ◌>>=◌, drop, split, join, if◌then◌else◌,
}
use phpo.Preflight.Validate.{trim}
use phpo.Messages.Table.{fragments, has_han, ShapeMatch, match_shape}
use phpo.Messages.Language.{t, te}

abbrev pub Params : Type 0
Params = List (Text × Text)

-- `params[k] = v`. The names are words, so they keep the order in which they came.
unfoldable pub set_param : Text → Text → Params → Params
unfolding str_eq
set_param k v [] = (k, v) ∷ []
set_param k v ((j, w) ∷ ps) = if str_eq j k then (j, v) ∷ ps else (j, w) ∷ set_param k v ps

-- What stands before and after the first occurrence of a code unit.
unfoldable pub cut_at : ℕ → Text → Option (Text × Text)
cut_at c [] = none
cut_at c (d ∷ s) =
    if d == c
    then some ([], s)
    else elim (cut_at c s) [ none ↦ none | some (a, b) ↦ some (d ∷ a, b) ]

-- The results of a list, where each has one.
unfoldable pub each : (Text → Option Text) → List Text → Option (List Text)
each f [] = some []
each f (x ∷ xs) = do y ← f x; ys ← each f xs; some (y ∷ ys)

abbrev pub fragment_in : List (Text × Text) → Text → Option Text
fragment_in [] v = none
fragment_in ((zh, code) ∷ rest) v = if str_eq zh v then some code else fragment_in rest v

unfoldable pub fragment_code : Text → Option Text
unfolding str_eq
fragment_code v = fragment_in fragments v

abbrev pub join_lines : Option (List Text) → Option Text
join_lines lines = lines >>= λ ls. some (join (lit "\n") ls)

-- The registered resolver of task labels, if there is one: it may throw.
abbrev pub Resolver : Type 0
Resolver = Option (Text → Params → Option Params)

-- `{ ...params, ...more }`.
unfoldable pub overlay : Params → Params → Params
unfolding set_param
overlay ps [] = ps
overlay ps ((k, v) ∷ more) = overlay (set_param k v ps) more

unfoldable pub resolve_params : Resolver → Text → Params → Params
unfolding overlay
resolve_params none code params = params
resolve_params (some f) code params = elim (f code params) [
  | none ↦ params
  | some more ↦ overlay params more
]

module _ (texts : Text → Option Text) (decode : Text → Option Text) where
  abbrev pub safe_decode : Text → Text
  safe_decode v = or_else (decode v) v

  -- The assignments of the query `k=v&…`; a part without a name before its `=` sets nothing.
  unfoldable pub query_params : List Text → Params → Params
  unfolding cut_at set_param
  query_params [] out = out
  query_params (kv ∷ kvs) out = query_params kvs (elim (cut_at b'=' kv) [
    | none ↦ out
    | some (k, v) ↦ if is_given k then set_param k (safe_decode v) out else out
  ])

  abbrev pub split_ref : ℕ → Text → Text × Text
  split_ref c s = or_else (cut_at c s) (s, [])

  unfoldable pub nested : Text → Text
  unfolding cut_at query_params split t str_eq
  nested ref =
      let (spec, tail) = split_ref b'|' ref in
      let fallback = safe_decode tail in
      let (code, query) = split_ref b'?' spec in
      let out = t texts code (query_params (split b'&' query) []) in
      if te texts code then (if str_eq out code then fallback else out) else fallback

  -- One value of `resolve`, where `translate` is `translateValue` at the depth at hand.
  abbrev pub resolve_value : (Text → Option Text) → Text → Option Text
  resolve_value translate v =
      if starts_with v (lit "@") then some (nested (drop 1 v)) else translate v

  unfoldable pub resolve : (Text → Option Text) → Params → Option Params
  unfolding nested starts_with
  resolve translate [] = some []
  resolve translate ((k, v) ∷ ps) = do
    w ← resolve_value translate v
    ws ← resolve translate ps
    some ((k, w) ∷ ws)

  -- `msgText(text, code, params)`, where `translate` is `translateValue` at depth 0.
  unfoldable pub say : (Text → Option Text) → Text → Text → Params → Option Text
  unfolding resolve t
  say translate text code params =
      let said = resolve translate params >>= λ ps. some (t texts code ps) in
      if is_given code && te texts code then said else some text

  -- A line of a value: `resolve` one level down, then `msgText`, which starts from level 0 again.
  abbrev pub say_hit : (ℕ → Text → Option Text) → ℕ → Text → Option ShapeMatch → Option Text
  say_hit translate depth line none = some line
  say_hit translate depth line (some hit) =
      resolve (translate (depth + 1)) hit.params >>= say (translate 0) line hit.code

  -- The value is one of the fragments, with that code, or it is taken line by line.
  abbrev pub translate_as : (ℕ → Text → Option Text) → ℕ → Text → Option Text → Option Text
  translate_as translate depth v (some frag) = say (translate 0) v frag []
  translate_as translate depth v none =
      let lines =
        join_lines
          (each (λ line. say_hit translate depth line (match_shape line)) (split b'\n' v)) in
      if ltb 3 depth || not (has_han v) then some v else lines

  unfoldable pub translate_value : ℕ → ℕ → Text → Option Text
  unfolding fragment_code match_shape resolve say each split join
  translate_value zero depth v = none
  translate_value (suc rounds) depth v =
      translate_as (translate_value rounds) depth v (fragment_code v)

  -- The code is absent or empty, or it is a message code.
  unfoldable pub msg_text : ℕ → Text → Option Text → Params → Option Text
  unfolding say translate_value
  msg_text rounds text none params = some text
  msg_text rounds text (some code) params = say (translate_value rounds 0) text code params

  unfoldable pub task_label : ℕ → Text → Option Text → Params → Option Text
  unfolding msg_text
  task_label rounds label none params = some label
  task_label rounds label (some code) params =
      if is_given code then msg_text rounds label (some code) params else some label

  abbrev pub say_known : ℕ → Resolver → Text → Option ShapeMatch → Option Text
  say_known rounds resolver line none = some line
  say_known rounds resolver line (some hit) =
      msg_text rounds line (some hit.code) (resolve_params resolver hit.code hit.params)

  unfoldable pub match_line : ℕ → Resolver → Text → Option Text
  unfolding match_shape msg_text resolve_params
  match_line rounds resolver line =
      let known = say_known rounds resolver line (match_shape line) in
      if has_han line then known else some line

  unfoldable pub backend_line : ℕ → Resolver → Text → Option Text
  unfolding match_line trim str_eq
  backend_line rounds resolver line = do
    hit ← match_line rounds resolver (trim line)
    some (if str_eq hit (trim line) then line else hit)

  unfoldable pub backend_msg : ℕ → Resolver → Text → Option Text
  unfolding backend_line each split join
  backend_msg rounds resolver raw =
      let lines = join_lines (each (backend_line rounds resolver) (split b'\n' raw)) in
      if is_given raw && has_han raw then lines else some raw
