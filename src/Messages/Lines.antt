-- ===== src/Messages/Lines.antt =====
-- Proofs about the lines that frontend/src/utils/backendMsg.ts shows.
use phpo.Base.{
  ℕ, suc, ◌≡◌, refl, ap, ◌∙◌, ◌⊎◌, inl, inr, Bool, true, false, Bool-cases, ◌&&◌, Option, none,
  some, Option-cases, List, [], ◌∷◌, All, Text, lit, str_eq, eq_refl, eq_iff, is_given, split, join,
  if◌then◌else◌,
}
use phpo.Preflight.Validate.{trim}
use phpo.Messages.Table.{has_han, ShapeMatch, match_shape}
use phpo.Messages.Language.{t, te}
use phpo.Messages.Render.{
  Resolver, resolve_params, say, say_known, each, join_lines, msg_text, match_line, backend_line,
  backend_msg,
}
use phpo.Messages.Fallback.{IsPlain, if_true, and_right, match_line-known}

if_false : (b : Bool) (x y : Option Text) → b ≡ false → (if b then x else y) ≡ y
if_false true x y e = cc
if_false false x y e = refl

module _ (texts : Text → Option Text) (decode : Text → Option Text) (resolver : Resolver) where
  -- If the line is a known sentence, its values are no messages, no fragments and not Chinese.
  abbrev pub IsPlainLine : Text → Type 0
  IsPlainLine line =
      (hit : ShapeMatch)
      → match_shape (trim line) ≡ some hit
      → All (IsPlain texts decode) (resolve_params resolver hit.code hit.params)

  abbrev pub said_as : ShapeMatch → Text
  said_as hit = t texts hit.code (resolve_params resolver hit.code hit.params)

  -- The trimmed line has nothing that the language says in other words: it is not Chinese, no known
  -- sentence, a sentence for which the language has no text, or the very text that it has.
  abbrev pub IsAsItCame : Text → Type 0
  IsAsItCame line =
      (has_han line ≡ false)
      ⊎ ((match_shape line ≡ none)
          ⊎ ((hit : ShapeMatch) × (match_shape line ≡ some hit)
              × (((is_given hit.code && te texts hit.code) ≡ false) ⊎ (said_as hit ≡ line))))

  -- A line as it came, or the text that the language has for the known sentence that it says.
  abbrev pub IsLineShown : Text → Text → Type 0
  IsLineShown line out =
      ((out ≡ line) × IsAsItCame (trim line))
      ⊎ ((hit : ShapeMatch) × (match_shape (trim line) ≡ some hit)
          × (te texts hit.code ≡ true)
          × (out ≡ said_as hit))

  -- One after the other, and as many.
  abbrev pub EachShown : List Text → List Text → Type 0
  EachShown [] [] = Unit
  EachShown (l ∷ ls) (o ∷ os) = IsLineShown l o × EachShown ls os
  EachShown _ _ = ⊥

  match_line_found :
      (rounds : ℕ) (line : Text)
      → IsPlainLine line
      → ((match_line texts decode (suc rounds) resolver (trim line) ≡ some (trim line))
          × IsAsItCame (trim line))
        ⊎ ((hit : ShapeMatch) × (match_shape (trim line) ≡ some hit)
            × (te texts hit.code ≡ true)
            × (match_line texts decode (suc rounds) resolver (trim line)
                ≡ some (t texts hit.code (resolve_params resolver hit.code hit.params))))
  unfolding match_line msg_text say
  match_line_found rounds line plain =
      let l = trim line in
      let said : Option ShapeMatch → Option Text = say_known texts decode (suc rounds) resolver l in
      elim (Bool-cases (has_han l)) [
        | inr latin ↦ inl (if_false (has_han l) (said (match_shape l)) (some l) latin, inl latin)
        | inl han ↦
            let spoken = if_true (has_han l) (said (match_shape l)) (some l) han in
            elim (Option-cases (match_shape l)) [
              | inl unknown ↦ inl (spoken ∙ ap said unknown, inr (inl unknown))
              | inr (hit, known) ↦ elim (Bool-cases (is_given hit.code && te texts hit.code)) [
                | inl has ↦ inr (
                  hit,
                  known,
                  and_right (is_given hit.code) (te texts hit.code) has,
                  match_line-known texts decode rounds resolver l hit han known has
                      (plain hit known),
                )
                | inr lacks ↦ inl (
                  spoken
                      ∙ (ap said known
                          ∙ if_false (is_given hit.code && te texts hit.code) _ (some l) lacks),
                  inr (inr (hit, known, inl lacks)),
                )
              ]
            ]
      ]

  backend_line_shown :
      (rounds : ℕ) (line : Text)
      → IsPlainLine line
      → (out : Text) × (backend_line texts decode (suc rounds) resolver line ≡ some out)
        × IsLineShown line out
  unfolding backend_line
  backend_line_shown rounds line plain = elim (match_line_found rounds line plain) [
    | inl (same, as_is) ↦ (line, rw (same, eq_refl (trim line)) refl, inl (refl, as_is))
    | inr (hit, known, has, said) ↦
        let out = t texts hit.code (resolve_params resolver hit.code hit.params) in
        elim (Bool-cases (str_eq out (trim line))) [
          | inl same ↦ (
            line,
            rw (said, same) refl,
            inl (refl, inr (inr (hit, known, inr ((eq_iff out (trim line)).0 same)))),
          )
          | inr other ↦ (out, rw (said, other) refl, inr (hit, known, has, refl))
        ]
  ]

  each_shown :
      (rounds : ℕ) (lines : List Text)
      → All IsPlainLine lines
      → (outs : List Text) × (each (backend_line texts decode (suc rounds) resolver) lines
          ≡ some outs)
        × EachShown lines outs
  unfolding each
  each_shown rounds [] plain = ([], refl, tt)
  each_shown rounds (l ∷ ls) (p, ps) =
      let (out, e, s) = backend_line_shown rounds l p in
      let (outs, f, r) = each_shown rounds ls ps in (out ∷ outs, rw (e, f) refl, (s, r))

  -- A message without Chinese is shown as it came. Any other one, whose known sentences have plain
  -- values, is shown in one round, line by line and with as many lines: a line that says a known sentence
  -- for which the language has a text is that text with the values of the sentence, and any other line is
  -- as it came.
  pub backend_msg_lem :
      (rounds : ℕ) (raw : Text)
      → All IsPlainLine (split b'\n' raw)
      → ((has_han raw ≡ false) × (backend_msg texts decode (suc rounds) resolver raw ≡ some raw))
        ⊎ ((outs : List Text) × (backend_msg texts decode (suc rounds) resolver raw
              ≡ some (join (lit "\n") outs))
            × EachShown (split b'\n' raw) outs)
  unfolding backend_msg
  backend_msg_lem rounds [] plain = inl (refl, refl)
  backend_msg_lem rounds (c ∷ s) plain =
      let raw = c ∷ s in
      let lines =
        join_lines (each (backend_line texts decode (suc rounds) resolver) (split b'\n' raw)) in
      elim (Bool-cases (has_han raw)) [
        | inr latin ↦ inl (latin, if_false (has_han raw) lines (some raw) latin)
        | inl han ↦
            let (outs, e, r) = each_shown rounds (split b'\n' raw) plain in
            inr (outs, if_true (has_han raw) lines (some raw) han ∙ ap join_lines e, r)
      ]
