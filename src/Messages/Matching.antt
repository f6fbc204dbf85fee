-- ===== src/Messages/Matching.antt =====
-- Proofs about the match of a line and a shape (frontend/src/utils/errShapes.ts).
use phpo.Base.{
  ℕ, ◌≡◌, refl, ap, ◌∙◌, ◌↔◌, ◌||◌, inl, inr, Bool, true, false, Option, none, some, is_some, ◌⊎◌,
  List, [], ◌∷◌, ◌++◌, Text, is_given, arith,
}
use phpo.Messages.Shapes.{
  Shape, strip_literal, and_then, shortest, all_values, capture, match_rest, exec,
}

-- The line that a shape makes with values for its placeholders.
abbrev pub fill : List (Text × Text) → List Text → Text
fill [] vs = []
fill ((key, literal) ∷ rest) [] = literal ++ fill rest []
fill ((key, literal) ∷ rest) (v ∷ vs) = v ++ (literal ++ fill rest vs)

-- One value for each placeholder, none of them empty.
abbrev pub Fits : List (Text × Text) → List Text → Type 0
Fits [] [] = Unit
Fits [] (v ∷ vs) = ⊥
Fits (p ∷ ps) [] = ⊥
Fits (p ∷ ps) (v ∷ vs) = (is_given v ≡ true) × Fits ps vs

pub strip_literal-append : (l t : Text) → strip_literal l (l ++ t) ≡ some t
unfolding strip_literal
strip_literal-append [] t = refl
strip_literal-append (c ∷ l) t = ground (arith, strip_literal-append l t)

pub strip_literal-some : (l t : Text) {r : Text} → strip_literal l t ≡ some r → t ≡ l ++ r
unfolding strip_literal
strip_literal-some [] t e = cc
strip_literal-some (c ∷ l) [] e = cc
strip_literal-some (c ∷ l) (d ∷ t) {r} e = ground (arith, strip_literal-some l t {r = r})

and_then-some :
    (o : Option Text) (k : Text → Option (List Text)) {vs : List Text}
    → and_then o k ≡ some vs
    → (r : Text) × (o ≡ some r) × (k r ≡ some vs)
and_then-some none k e = cc
and_then-some (some r) k e = (r, refl, e)

shortest-some :
    (c : ℕ) (o : Option (List Text)) (p : Option (Text × List Text)) {v : Text} {vs : List Text}
    → shortest c o p ≡ some (v, vs)
    → ((o ≡ some vs) × (v ≡ c ∷ [])) ⊎ ((w : Text) × (p ≡ some (w, vs)) × (v ≡ c ∷ w))
shortest-some c (some ws) p e = inl (cc, cc)
shortest-some c none none e = cc
shortest-some c none (some (w, ws)) e = inr (w, cc, cc)

all_values-some :
    (o : Option (Text × List Text)) {vs : List Text}
    → all_values o ≡ some vs
    → (v : Text) × (ws : List Text) × (o ≡ some (v, ws)) × (vs ≡ v ∷ ws)
all_values-some none e = cc
all_values-some (some (v, ws)) e = (v, ws, refl, cc)

-- What the rest's match `k` says of what follows the capture.
capture-some :
    (l : Text) (k : Text → Option (List Text)) (t : Text) {v : Text} {vs : List Text}
    → capture l k t ≡ some (v, vs)
    → (r : Text) × (t ≡ v ++ (l ++ r)) × (k r ≡ some vs) × (is_given v ≡ true)
unfolding capture
capture-some l k [] e = cc
capture-some l k (c ∷ t) {v} {vs} e =
    elim (shortest-some c (and_then (strip_literal l t) k) (capture l k t) e) [
      | inl (n, f) ↦
          let (r, g, h) = and_then-some (strip_literal l t) k n in
          (r, rw (f, strip_literal-some l t g) refl, h, rw f refl)
      | inr (w, n, f) ↦
          let (r, g, h, j) = capture-some l k t n in (r, rw (f) (ap (◌∷◌ c) g), h, rw f refl)
    ]

or_true : (b : Bool) → (b || true) ≡ true
or_true true = refl
or_true false = refl

given_value {ℓ} : {A : Type ℓ} (o : Option A) → is_some o ≡ true → (a : A) × (o ≡ some a)
given_value none h = cc
given_value (some a) h = (a, refl)

shortest_found :
    (c : ℕ) (o : Option (List Text)) (p : Option (Text × List Text))
    → (is_some o || is_some p) ≡ true
    → is_some (shortest c o p) ≡ true
shortest_found c (some ws) p h = refl
shortest_found c none none h = h
shortest_found c none (some (w, ws)) h = refl

capture_found :
    (l : Text) (k : Text → Option (List Text)) (v r : Text) (c : ℕ)
    → is_some (k r) ≡ true
    → is_some (capture l k (c ∷ (v ++ (l ++ r)))) ≡ true
unfolding capture
capture_found l k [] r c h =
    shortest_found c (and_then (strip_literal l (l ++ r)) k) (capture l k (l ++ r))
      (rw (strip_literal-append l r, h) refl)
capture_found l k (d ∷ v) r c h =
    let t : Text = d ∷ (v ++ (l ++ r)) in
    shortest_found c (and_then (strip_literal l t) k) (capture l k t)
      (rw (capture_found l k v r d h) (or_true (is_some (and_then (strip_literal l t) k))))

all_values_found : (o : Option (Text × List Text)) → is_some (all_values o) ≡ is_some o
all_values_found none = refl
all_values_found (some p) = refl

pub match_rest-some :
    (ps : List (Text × Text)) (t : Text) {vs : List Text}
    → match_rest ps t ≡ some vs
    → (t ≡ fill ps vs) × Fits ps vs
unfolding match_rest
match_rest-some [] [] {vs = []} e = (refl, tt)
match_rest-some [] [] {vs = v ∷ vs} e = cc
match_rest-some [] (c ∷ t) e = cc
match_rest-some ((key, l) ∷ ps) t e =
    let (v, ws, n, f) = all_values-some (capture l (match_rest ps) t) e in
    let (r, g, h, j) = capture-some l (match_rest ps) t n in
    let (f2, h2) = match_rest-some ps r h in (rw (f, g, f2) refl, rw f (j, h2))

pub match_rest-fill :
    (ps : List (Text × Text)) (vs : List Text)
    → Fits ps vs
    → is_some (match_rest ps (fill ps vs)) ≡ true
unfolding match_rest
match_rest-fill [] [] h = refl
match_rest-fill [] (v ∷ vs) h = elim h [ ]
match_rest-fill (p ∷ ps) [] h = elim h [ ]
match_rest-fill ((key, l) ∷ ps) ([] ∷ vs) h = cc
match_rest-fill ((key, l) ∷ ps) ((c ∷ v) ∷ vs) (g, h) =
    all_values_found (capture l (match_rest ps) (c ∷ (v ++ (l ++ fill ps vs))))
    ∙ capture_found l (match_rest ps) v (fill ps vs) c (match_rest-fill ps vs h)

pub exec-some :
    (s : Shape) (line : Text) {vs : List Text}
    → exec s line ≡ some vs
    → (line ≡ s.first ++ fill s.rest vs) × Fits s.rest vs
unfolding exec
exec-some s line e =
    let (r, f, g) = and_then-some (strip_literal s.first line) (match_rest s.rest) e in
    let (f2, h) = match_rest-some s.rest r g in
    (strip_literal-some s.first line f ∙ ap (◌++◌ s.first) f2, h)

-- A line is matched exactly when it is the shape's literals around one text, not empty, for each
-- placeholder.
pub exec_iff :
    (s : Shape) (line : Text)
    → (is_some (exec s line) ≡ true)
      ↔ ((vs : List Text) × (line ≡ s.first ++ fill s.rest vs) × Fits s.rest vs)
unfolding exec
exec_iff s line = (
  λ h. let (vs, e) = given_value (exec s line) h in let (f, g) = exec-some s line e in (vs, f, g),
  λ h.
      let (vs, e, f) = h in
      rw (e, strip_literal-append s.first (fill s.rest vs)) (match_rest-fill s.rest vs f),
)
