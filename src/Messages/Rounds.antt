-- ===== src/Messages/Rounds.antt =====
-- Proofs about the bound on the rounds of frontend/src/utils/msgText.ts.
use phpo.Base.{
  ℕ, zero, suc, ◌+◌, ◌≡◌, ltb, Bool, true, false, not, ◌&&◌, ◌||◌, Option, none, some, ◌>>=◌,
  >>=-some, List, [], ◌∷◌, Text, lit, str_eq, starts_with, is_given, drop, split, join,
  if◌then◌else◌,
}
use phpo.Preflight.Validate.{trim}
use phpo.Messages.Table.{has_han, ShapeMatch, match_shape}
use phpo.Messages.Language.{t, te}
use phpo.Messages.Render.{
  Params, each, fragment_code, nested, resolve_value, resolve, say, say_hit, join_lines,
  translate_as, translate_value, msg_text, Resolver, resolve_params, say_known, match_line,
  backend_line, backend_msg,
}

-- Every result of the first is a result of the second.
abbrev pub Extends : (Text → Option Text) → (Text → Option Text) → Type 0
Extends f g = (v r : Text) → f v ≡ some r → g v ≡ some r

each-Extends :
    (f g : Text → Option Text) (vs : List Text) {rs : List Text}
    → Extends f g
    → each f vs ≡ some rs
    → each g vs ≡ some rs
unfolding each
each-Extends f g [] h e = e
each-Extends f g (v ∷ vs) h e =
    let (r, a, e2) = >>=-some (f v) (λ y. each f vs >>= λ ys. some (y ∷ ys)) e in
    let (rs, b, e3) = >>=-some (each f vs) (λ ys. some (r ∷ ys)) e2 in
    rw (h v r a, each-Extends f g vs h b) e3

if_some :
    (b : Bool) (x y z w : Option Text) {out : Text}
    → (if b then x else y) ≡ some out
    → (x ≡ some out → z ≡ some out)
    → (y ≡ some out → w ≡ some out)
    → (if b then z else w) ≡ some out
if_some true x y z w e h k = h e
if_some false x y z w e h k = k e

module _ (texts : Text → Option Text) (decode : Text → Option Text) where
  resolve_value-Extends :
      (f g : Text → Option Text) (v : Text) {r : Text}
      → Extends f g
      → resolve_value texts decode f v ≡ some r
      → resolve_value texts decode g v ≡ some r
  resolve_value-Extends f g v {r} h e =
      let ref : Option Text = some (nested texts decode (drop 1 v)) in
      if_some (starts_with v (lit "@")) ref (f v) ref (g v) e (λ x. x) (h v r)

  resolve-Extends :
      (f g : Text → Option Text) (ps : Params) {rs : Params}
      → Extends f g
      → resolve texts decode f ps ≡ some rs
      → resolve texts decode g ps ≡ some rs
  unfolding resolve
  resolve-Extends f g [] h e = e
  resolve-Extends f g ((k, v) ∷ ps) h e =
      let (r, a, e2) =
        >>=-some (resolve_value texts decode f v)
          (λ w. resolve texts decode f ps >>= λ ws. some ((k, w) ∷ ws)) e in
      let (rs, b, e3) = >>=-some (resolve texts decode f ps) (λ ws. some ((k, r) ∷ ws)) e2 in
      rw (resolve_value-Extends f g v h a, resolve-Extends f g ps h b) e3

  say-Extends :
      (f g : Text → Option Text) (words code : Text) (params : Params) {out : Text}
      → Extends f g
      → say texts decode f words code params ≡ some out
      → say texts decode g words code params ≡ some out
  unfolding say
  say-Extends f g words code params h e =
      if_some (is_given code && te texts code)
        (resolve texts decode f params >>= λ ps. some (t texts code ps)) (some words)
        (resolve texts decode g params >>= λ ps. some (t texts code ps)) (some words) e
        (λ e2.
          let (ps, a, e3) =
            >>=-some (resolve texts decode f params) (λ ps. some (t texts code ps)) e2 in
          rw (resolve-Extends f g params h a) e3)
        (λ x. x)

  say_hit-Extends :
      (f g : ℕ → Text → Option Text) (depth : ℕ) (line : Text) (hit : Option ShapeMatch)
      {out : Text}
      → ((n : ℕ) → Extends (f n) (g n))
      → say_hit texts decode f depth line hit ≡ some out
      → say_hit texts decode g depth line hit ≡ some out
  say_hit-Extends f g depth line none h e = e
  say_hit-Extends f g depth line (some hit) h e =
      let (ps, a, e2) =
        >>=-some (resolve texts decode (f (depth + 1)) hit.params)
          (say texts decode (f 0) line hit.code) e in
      rw (resolve-Extends (f (depth + 1)) (g (depth + 1)) hit.params (h (depth + 1)) a)
        (say-Extends (f 0) (g 0) line hit.code ps (h 0) e2)

  join_lines-Extends :
      (f g : Text → Option Text) (ls : List Text) {out : Text}
      → Extends f g
      → join_lines (each f ls) ≡ some out
      → join_lines (each g ls) ≡ some out
  join_lines-Extends f g ls h e =
      let (rs, a, e2) = >>=-some (each f ls) (λ rs. some (join (lit "\n") rs)) e in
      rw (each-Extends f g ls h a) e2

  translate_as-Extends :
      (f g : ℕ → Text → Option Text) (depth : ℕ) (v : Text) (frag : Option Text) {out : Text}
      → ((n : ℕ) → Extends (f n) (g n))
      → translate_as texts decode f depth v frag ≡ some out
      → translate_as texts decode g depth v frag ≡ some out
  translate_as-Extends f g depth v (some frag) h e = say-Extends (f 0) (g 0) v frag [] (h 0) e
  translate_as-Extends f g depth v none h e =
      let line_f : Text → Option Text =
        λ line. say_hit texts decode f depth line (match_shape line) in
      let line_g : Text → Option Text =
        λ line. say_hit texts decode g depth line (match_shape line) in
      if_some (ltb 3 depth || not (has_han v)) (some v) (join_lines (each line_f (split b'\n' v)))
        (some v) (join_lines (each line_g (split b'\n' v))) e (λ x. x)
        (join_lines-Extends line_f line_g (split b'\n' v)
          (λ line r. say_hit-Extends f g depth line (match_shape line) h))

  -- One round more changes no result.
  translate_value-Extends :
      (rounds depth : ℕ)
      → Extends
          (translate_value texts decode rounds depth)
          (translate_value texts decode (suc rounds) depth)
  unfolding translate_value
  translate_value-Extends zero depth v r e = cc
  translate_value-Extends (suc rounds) depth v r e =
      translate_as-Extends (translate_value texts decode rounds)
        (translate_value texts decode (suc rounds)) depth v (fragment_code v)
        (λ n. translate_value-Extends rounds n) e

  match_line-Extends :
      (rounds : ℕ) (resolver : Resolver)
      → Extends
          (match_line texts decode rounds resolver)
          (match_line texts decode (suc rounds) resolver)
  unfolding match_line msg_text
  match_line-Extends rounds resolver line r e =
      if_some (has_han line) (say_known texts decode rounds resolver line (match_shape line))
        (some line) (say_known texts decode (suc rounds) resolver line (match_shape line))
        (some line) e (say_known-more (match_shape line)) (λ x. x)
    where
      say_known-more :
          (hit : Option ShapeMatch)
          → say_known texts decode rounds resolver line hit ≡ some r
          → say_known texts decode (suc rounds) resolver line hit ≡ some r
      say_known-more none h = h
      say_known-more (some hit) h =
          say-Extends (translate_value texts decode rounds 0)
            (translate_value texts decode (suc rounds) 0) line hit.code
            (resolve_params resolver hit.code hit.params) (translate_value-Extends rounds 0) h

  backend_line-Extends :
      (rounds : ℕ) (resolver : Resolver)
      → Extends
          (backend_line texts decode rounds resolver)
          (backend_line texts decode (suc rounds) resolver)
  unfolding backend_line
  backend_line-Extends rounds resolver line r e =
      let (hit, a, e2) =
        >>=-some (match_line texts decode rounds resolver (trim line))
          (λ hit. some (if str_eq hit (trim line) then line else hit)) e in
      rw (match_line-Extends rounds resolver (trim line) hit a) e2

  -- What is shown for a text does not change when more rounds are allowed.
  pub backend_msg-more_rounds :
      (rounds : ℕ) (resolver : Resolver) (raw shown : Text)
      → backend_msg texts decode rounds resolver raw ≡ some shown
      → backend_msg texts decode (suc rounds) resolver raw ≡ some shown
  unfolding backend_msg
  backend_msg-more_rounds rounds resolver raw shown e =
      if_some (is_given raw && has_han raw)
        (join_lines (each (backend_line texts decode rounds resolver) (split b'\n' raw))) (some raw)
        (join_lines (each (backend_line texts decode (suc rounds) resolver) (split b'\n' raw)))
        (some raw) e
        (join_lines-Extends (backend_line texts decode rounds resolver)
          (backend_line texts decode (suc rounds) resolver) (split b'\n' raw)
          (backend_line-Extends rounds resolver))
        (λ x. x)
