-- ===== src/Tests/MessageTests.antt =====
-- The recognition and the translation of messages at concrete inputs.
use phpo.Base.{
  Option, ◌≤◌, ◌≡◌, refl, ◌↔◌, ◌⊎◌, inl, true, none, some, is_some, ◌&&◌, List, [], ◌∷◌, ◌++◌, All,
  Text, lit, is_given, str_eq, starts_with, length, if◌then◌else◌, false, subst, ap, ◌∙◌, split,
  join,
}
use phpo.Messages.Shapes.{Shape, Compiled, key_count, parse_shape, compile, exec}
use phpo.Messages.Table.{
  strip_error_prefix, ShapeMatch, zip_keys, exec_either, table, match_shape, has_han,
}
use phpo.Messages.Matching.{fill, Fits, exec_iff}
use phpo.Messages.Priority.{Holds, Says, match_shape_least, match_shape-Says}
use phpo.Messages.Language.{t, te}
use phpo.Messages.Render.{fragment_code, Resolver, resolve_params, match_line, backend_msg}
use phpo.Messages.Filling.{is_plain, written, IsTemplate, t-exec}
use phpo.Messages.Fallback.{IsPlain}
use phpo.Messages.Lines.{IsPlainLine, EachShown, backend_msg_lem}
use phpo.Preflight.Validate.{trim, drop_while}

abbrev in_use : Shape
in_use = parse_shape none (lit "port {port} is used by {who}")

abbrev in_use_line : Text
in_use_line = lit "port 80 is used by nginx"

exec_at : exec in_use in_use_line ≡ some (lit "80" ∷ lit "nginx" ∷ [])
unfolding exec parse_shape
exec_at = refl

exec_iff_example :
    (is_some (exec in_use in_use_line) ≡ true)
    ↔ ((vs : List Text) × (in_use_line ≡ in_use.first ++ fill in_use.rest vs) × Fits in_use.rest vs)
exec_iff_example = exec_iff in_use in_use_line

abbrev busy_zh : Text × Text
busy_zh = (lit "已有任务运行中，请等待完成后再操作", lit "err.taskBusy")

abbrev busy_line : Text
busy_line = lit "RuntimeError: 已有任务运行中，请等待完成后再操作"

busy_known :
    is_some (exec_either (compile busy_zh).shape busy_line (strip_error_prefix busy_line)) ≡ true
unfolding exec_either compile strip_error_prefix
busy_known = refl

match_shape_least_example :
    (m : ShapeMatch) × (match_shape busy_line ≡ some m)
    × (length m.params ≤ key_count (compile busy_zh))
match_shape_least_example = match_shape_least (compile busy_zh) busy_line (inl refl) busy_known

abbrev busy_hit : ShapeMatch
busy_hit = record { code = lit "err.taskBusy"; params = [] }

busy_at : match_shape busy_line ≡ some busy_hit
unfolding match_shape
busy_at = refl

match_shape-Says_example :
    (c : Compiled) × (vs : List Text) × Holds c table
    × (Says c.shape vs busy_line ⊎ Says c.shape vs (strip_error_prefix busy_line))
    × (busy_hit ≡ record { code = c.code; params = zip_keys c.shape.rest vs })
match_shape-Says_example = match_shape-Says busy_line busy_hit busy_at

abbrev moved_line : Text
moved_line = lit "端口 80 已被占用，自动顺延至 81"

abbrev moved_hit : ShapeMatch
moved_hit = record {
  code = lit "err.portAdvance";
  params = (lit "from", lit "80") ∷ (lit "to", lit "81") ∷ [];
}

moved_at : match_shape moved_line ≡ some moved_hit
unfolding match_shape
moved_at = refl

abbrev english : Text → Option Text
english key =
    if str_eq key (lit "err.portAdvance")
    then some (lit "Port {from} is taken, {to} is used instead")
    else none

abbrev undecoded : Text → Option Text
undecoded v = none

abbrev no_resolver : Resolver
no_resolver = none

moved-IsPlain :
    All (IsPlain english undecoded) (resolve_params no_resolver moved_hit.code moved_hit.params)
unfolding resolve_params starts_with fragment_code
moved-IsPlain = ((refl, refl, refl), ((refl, refl, refl), tt))

moved_is_known : (is_given moved_hit.code && te english moved_hit.code) ≡ true
unfolding str_eq
moved_is_known = refl

-- A sentence of the backend, and a line that is none.
abbrev report : Text
report = lit "端口 80 已被占用，自动顺延至 81\nbye"

report_lines : split b'\n' report ≡ moved_line ∷ lit "bye" ∷ []
unfolding split
report_lines = refl

one_hit : (found : Option ShapeMatch) (a b : ShapeMatch) → found ≡ some a → found ≡ some b → a ≡ b
one_hit found a b e f = cc

no_hit : (found : Option ShapeMatch) (a : ShapeMatch) → found ≡ none → found ≡ some a → ⊥
no_hit found a e f = cc

moved_trimmed : trim moved_line ≡ moved_line
unfolding trim drop_while
moved_trimmed = refl

bye_trimmed : trim (lit "bye") ≡ lit "bye"
unfolding trim drop_while
bye_trimmed = refl

bye_unknown : match_shape (lit "bye") ≡ none
unfolding match_shape
bye_unknown = refl

moved-IsPlainLine : IsPlainLine english undecoded no_resolver moved_line
moved-IsPlainLine hit e =
    subst (λ h. All (IsPlain english undecoded) (resolve_params no_resolver h.code h.params))
      (one_hit (match_shape (trim moved_line)) moved_hit hit
        (ap match_shape moved_trimmed ∙ moved_at) e)
      moved-IsPlain

bye-IsPlainLine : IsPlainLine english undecoded no_resolver (lit "bye")
bye-IsPlainLine hit e =
    absurd
      (no_hit (match_shape (trim (lit "bye"))) hit (ap match_shape bye_trimmed ∙ bye_unknown) e)

backend_msg_lem_example :
    ((has_han report ≡ false) × (backend_msg english undecoded 1 no_resolver report ≡ some report))
    ⊎ ((outs : List Text) × (backend_msg english undecoded 1 no_resolver report
          ≡ some (join (lit "\n") outs))
        × EachShown english undecoded no_resolver (split b'\n' report) outs)
backend_msg_lem_example =
    backend_msg_lem english undecoded no_resolver 0 report
      (rw report_lines (moved-IsPlainLine, (bye-IsPlainLine, tt)))

moved_said : t english moved_hit.code moved_hit.params ≡ lit "Port 80 is taken, 81 is used instead"
unfolding t str_eq
moved_said = refl

unknown_code_at : match_line english undecoded 1 no_resolver busy_line ≡ some busy_line
unfolding match_line str_eq
unknown_code_at = refl

abbrev said_again : Text → Option Text
said_again key = some (lit "port {port} is used by {who}")

in_use-IsTemplate : IsTemplate in_use.rest
unfolding parse_shape
in_use-IsTemplate = (refl, refl, (λ e. cc, tt), (refl, refl, tt, tt))

in_use_written : said_again (lit "err.portInUse") ≡ some (in_use.first ++ written in_use.rest)
unfolding parse_shape
in_use_written = refl

in_use_plain : is_plain in_use.first ≡ true
unfolding parse_shape
in_use_plain = refl

t-exec_example :
    t said_again (lit "err.portInUse") (zip_keys in_use.rest (lit "80" ∷ lit "nginx" ∷ []))
    ≡ in_use_line
t-exec_example =
    t-exec said_again (lit "err.portInUse") in_use in_use_line (lit "80" ∷ lit "nginx" ∷ [])
      in_use_written in_use_plain in_use-IsTemplate exec_at (refl, (refl, tt))
