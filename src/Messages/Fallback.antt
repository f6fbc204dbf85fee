-- ===== src/Messages/Fallback.antt =====
-- Proofs about what frontend/src/utils/msgText.ts and backendMsg.ts show.
use phpo.Base.{
  ℕ, suc, ◌≡◌, refl, ap, ◌∙◌, ltb, Bool, true, false, not, ◌&&◌, ◌||◌, Option, none, some, ◌>>=◌,
  [], ◌∷◌, All, Text, lit, starts_with, is_given, if◌then◌else◌, arith,
}
use phpo.Messages.Table.{has_han, ShapeMatch, match_shape}
use phpo.Messages.Language.{t, te}
use phpo.Messages.Render.{
  Params, fragment_code, resolve, say, translate_value, msg_text, Resolver, resolve_params,
  say_known, match_line,
}

pub if_true : (b : Bool) (x y : Option Text) → b ≡ true → (if b then x else y) ≡ x
if_true true x y e = refl
if_true false x y e = cc

pub and_right : (a b : Bool) → (a && b) ≡ true → b ≡ true
and_right a b h = ground arith

module _ (texts : Text → Option Text) (decode : Text → Option Text) where
  -- A value that is neither a message, nor a fragment, nor Chinese.
  abbrev pub IsPlain : Text × Text → Type 0
  IsPlain (k, v) =
      (starts_with v (lit "@") ≡ false) × (fragment_code v ≡ none) × (has_han v ≡ false)

  translate_value-plain :
      (rounds depth : ℕ) (v : Text)
      → fragment_code v ≡ none
      → has_han v ≡ false
      → translate_value texts decode (suc rounds) depth v ≡ some v
  unfolding translate_value
  translate_value-plain rounds depth v f h = rw f (as_it_is (ltb 3 depth) (has_han v) _ h)
    where
      as_it_is :
          (b c : Bool) (o : Option Text) → c ≡ false → (if b || not c then some v else o) ≡ some v
      as_it_is true c o e = refl
      as_it_is false true o e = cc
      as_it_is false false o e = refl

  resolve-plain :
      (rounds depth : ℕ) (ps : Params)
      → All IsPlain ps
      → resolve texts decode (translate_value texts decode (suc rounds) depth) ps ≡ some ps
  unfolding resolve
  resolve-plain rounds depth [] _ = refl
  resolve-plain rounds depth ((k, v) ∷ ps) ((a, f, h), hs) =
      rw (a, translate_value-plain rounds depth v f h, resolve-plain rounds depth ps hs) refl

  say-plain :
      (rounds : ℕ) (line code : Text) (ps : Params)
      → (is_given code && te texts code) ≡ true
      → All IsPlain ps
      → say texts decode (translate_value texts decode (suc rounds) 0) line code ps
        ≡ some (t texts code ps)
  unfolding say
  say-plain rounds line code ps g p =
      let said = resolve texts decode (translate_value texts decode (suc rounds) 0) ps >>= λ ws.
      some (t texts code ws) in
      if_true (is_given code && te texts code) said (some line) g
      ∙ ap (λ o. o >>= λ ws. some (t texts code ws)) (resolve-plain rounds 0 ps p)

  -- A known sentence whose values are plain is said in the language, in one round.
  pub match_line-known :
      (rounds : ℕ) (resolver : Resolver) (line : Text) (hit : ShapeMatch)
      → has_han line ≡ true
      → match_shape line ≡ some hit
      → (is_given hit.code && te texts hit.code) ≡ true
      → All IsPlain (resolve_params resolver hit.code hit.params)
      → match_line texts decode (suc rounds) resolver line
        ≡ some (t texts hit.code (resolve_params resolver hit.code hit.params))
  unfolding match_line msg_text
  match_line-known rounds resolver line hit h m g p =
      let said : Option ShapeMatch → Option Text =
        say_known texts decode (suc rounds) resolver line in
      if_true (has_han line) (said (match_shape line)) (some line) h
      ∙ (ap said m
          ∙ say-plain rounds line hit.code (resolve_params resolver hit.code hit.params) g p)
