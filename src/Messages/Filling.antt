-- ===== src/Messages/Filling.antt =====
-- Proofs about `t` of frontend/src/composables/useI18n.ts on the sentences of errShapes.ts.
use mathlib.Core.List.{append_assoc}
use phpo.Base.{
  ℕ, zero, suc, ◌-◌, ◌==◌, ◌≡◌, ◌≢◌, refl, sym, ap, ◌∙◌, Bool, true, false, not, ◌&&◌, Bool-cases,
  inl, inr, Option, some, or_else, List, [], ◌∷◌, ◌++◌, All, Text, all, length, starts_with,
  starts_with-append, if◌then◌else◌, arith,
}
use phpo.Messages.Shapes.{Shape, exec}
use phpo.Messages.Table.{zip_keys}
use phpo.Messages.Language.{replace_all, token_of, interpolate, t}
use phpo.Messages.Matching.{fill, Fits, exec-some}

-- No brace stands in the text.
abbrev pub is_plain : Text → Bool
is_plain s = all (λ c. not (c == b'{') && not (c == b'}')) s

-- A shape's placeholders as they are written, each with its literal.
abbrev pub written : List (Text × Text) → Text
written [] = []
written ((key, literal) ∷ rest) = token_of key ++ (literal ++ written rest)

all-append : (a b : Text) → is_plain a ≡ true → is_plain b ≡ true → is_plain (a ++ b) ≡ true
all-append [] b e f = f
all-append (c ∷ a) b e f = ground (arith, all-append a b)

replace_all-plain :
    (key v a x : Text)
    → is_plain a ≡ true
    → replace_all zero (token_of key) v (a ++ x) ≡ a ++ replace_all zero (token_of key) v x
unfolding replace_all starts_with
replace_all-plain key v [] x e = refl
replace_all-plain key v (c ∷ a) x e = ground (arith, replace_all-plain key v a x)

replace_all-skip :
    (token v a x : Text) → replace_all (length a) token v (a ++ x) ≡ replace_all zero token v x
unfolding replace_all
replace_all-skip token v [] x = refl
replace_all-skip token v (c ∷ a) x = replace_all-skip token v a x

starts_with-key :
    (j k x : Text)
    → is_plain j ≡ true
    → is_plain k ≡ true
    → starts_with (j ++ (b'}' ∷ x)) (k ++ (b'}' ∷ [])) ≡ true
    → j ≡ k
unfolding starts_with
starts_with-key [] [] x e f h = refl
starts_with-key [] (c ∷ k) x e f h = ground (arith, f, h)
starts_with-key (d ∷ j) [] x e f h = ground (arith, e, h)
starts_with-key (d ∷ j) (c ∷ k) x e f h = ground (arith, starts_with-key j k x)

replace_all-close :
    (key v x : Text)
    → replace_all zero (token_of key) v (b'}' ∷ x) ≡ b'}' ∷ replace_all zero (token_of key) v x
unfolding replace_all starts_with
replace_all-close key v x = refl

regroup : (a b c d : Text) → a ++ (b ++ (c ++ d)) ≡ (a ++ (b ++ c)) ++ d
regroup a b c d = ap (λ x. a ++ x) (sym (append_assoc b c d)) ∙ sym (append_assoc a (b ++ c) d)

replace_all-key :
    (key v j x : Text)
    → is_plain j ≡ true
    → replace_all zero (token_of key) v ((j ++ (b'}' ∷ [])) ++ x)
      ≡ (j ++ (b'}' ∷ [])) ++ replace_all zero (token_of key) v x
replace_all-key key v j x e =
    ap (replace_all zero (token_of key) v) (append_assoc j (b'}' ∷ []) x)
    ∙ (replace_all-plain key v j (b'}' ∷ x) e
        ∙ (ap (λ y. j ++ y) (replace_all-close key v x)
            ∙ sym (append_assoc j (b'}' ∷ []) (replace_all zero (token_of key) v x))))

-- Names and literals hold no brace, and no name comes twice.
abbrev pub IsTemplate : List (Text × Text) → Type 0
IsTemplate [] = Unit
IsTemplate ((key, literal) ∷ rest) =
    (is_plain key ≡ true) × (is_plain literal ≡ true) × All (λ p. p.0 ≢ key) rest × IsTemplate rest

if_text_true : (b : Bool) (x y : Text) → b ≡ true → (if b then x else y) ≡ x
if_text_true true x y e = refl
if_text_true false x y e = cc

if_text_false : (b : Bool) (x y : Text) → b ≡ false → (if b then x else y) ≡ y
if_text_false true x y e = cc
if_text_false false x y e = refl

pred_suc : (n : ℕ) → suc n - 1 ≡ n
pred_suc n = omega arith

not_the_key :
    (j k x : Text)
    → is_plain j ≡ true
    → is_plain k ≡ true
    → j ≢ k
    → starts_with (token_of j ++ x) (token_of k) ≡ false
unfolding starts_with
not_the_key j k x e f n =
    elim (Bool-cases (starts_with ((j ++ (b'}' ∷ [])) ++ x) (k ++ (b'}' ∷ [])))) [
      | inl t ↦
          let u =
            ap (λ y. starts_with y (k ++ (b'}' ∷ []))) (sym (append_assoc j (b'}' ∷ []) x)) ∙ t in
          elim (n (starts_with-key j k x e f u)) [ ]
      | inr r ↦ r
    ]

-- The placeholders of other names stay.
replace_all-written :
    (key v : Text) (ps : List (Text × Text))
    → is_plain key ≡ true
    → IsTemplate ps
    → All (λ p. p.0 ≢ key) ps
    → replace_all zero (token_of key) v (written ps) ≡ written ps
unfolding replace_all
replace_all-written key v [] e _ _ = refl
replace_all-written key v ((j, l) ∷ ps) e (f, g, a, h) (n, ns) =
    let w = written ps in
    let r = replace_all zero (token_of key) v in
    if_text_false (starts_with (token_of j ++ (l ++ w)) (token_of key)) _ _
      (not_the_key j key (l ++ w) f e n)
    ∙ ap (λ y. b'{' ∷ y)
        (replace_all-key key v j (l ++ w) f
          ∙ ap (λ y. (j ++ (b'}' ∷ [])) ++ y)
              (replace_all-plain key v l w g
                ∙ ap (λ y. l ++ y) (replace_all-written key v ps e h ns)))

replace_all-token :
    (key v x : Text)
    → replace_all zero (token_of key) v (token_of key ++ x)
      ≡ v ++ replace_all zero (token_of key) v x
unfolding replace_all
replace_all-token key v x =
    let closed = key ++ (b'}' ∷ []) in
    if_text_true (starts_with (token_of key ++ x) (token_of key)) _ _
      (starts_with-append (token_of key) x)
    ∙ ap (λ y. v ++ y)
        (ap (λ n. replace_all n (token_of key) v (closed ++ x)) (pred_suc (length closed))
          ∙ replace_all-skip (token_of key) v closed x)

pub interpolate-written :
    (ps : List (Text × Text)) (vs : List Text) (before : Text)
    → is_plain before ≡ true
    → IsTemplate ps
    → Fits ps vs
    → All (λ v. is_plain v ≡ true) vs
    → interpolate (zip_keys ps vs) (before ++ written ps) ≡ before ++ fill ps vs
unfolding interpolate
interpolate-written [] [] before b _ _ _ = refl
interpolate-written [] (v ∷ vs) before b _ h _ = elim h [ ]
interpolate-written (p ∷ ps) [] before b _ h _ = elim h [ ]
interpolate-written ((k, l) ∷ ps) (v ∷ vs) before b (f, g, a, t) (_, h) (i, is) =
    let w = written ps in
    let r = replace_all zero (token_of k) v in
    let replaced : r (before ++ (token_of k ++ (l ++ w))) ≡ (before ++ (v ++ l)) ++ w =
      replace_all-plain k v before (token_of k ++ (l ++ w)) b
      ∙ (ap (λ y. before ++ y)
            (replace_all-token k v (l ++ w)
              ∙ ap (λ y. v ++ y)
                  (replace_all-plain k v l w g
                    ∙ ap (λ y. l ++ y) (replace_all-written k v ps f t a)))
          ∙ regroup before v l w) in
    ap (interpolate (zip_keys ps vs)) replaced
    ∙ (interpolate-written ps vs (before ++ (v ++ l))
          (all-append before (v ++ l) b (all-append v l i g)) t h is
        ∙ sym (regroup before v l (fill ps vs)))

-- A line that a sentence matches comes back as it was, where the language has that sentence itself, if no
-- brace stands in the sentence's literals and names and in the values, and no name comes twice.
pub t-exec :
    (texts : Text → Option Text) (code : Text) (s : Shape) (line : Text) (vs : List Text)
    → texts code ≡ some (s.first ++ written s.rest)
    → is_plain s.first ≡ true
    → IsTemplate s.rest
    → exec s line ≡ some vs
    → All (λ v. is_plain v ≡ true) vs
    → t texts code (zip_keys s.rest vs) ≡ line
unfolding t
t-exec texts code s line vs h f g e p =
    let (same, fits) = exec-some s line e in
    ap (λ o. interpolate (zip_keys s.rest vs) (or_else o code)) h
    ∙ (interpolate-written s.rest vs s.first f g fits p ∙ sym same)
