-- ===== src/Messages/Language.antt =====
-- The language and its texts: frontend/src/composables/useI18n.ts. The language packs are a parameter.
use phpo.Base.{
  ℕ, zero, suc, ◌-◌, ◌≡◌, refl, Bool, true, Option, none, some, or_else, is_some, List, [], ◌∷◌,
  ◌++◌, Text, lit, str_eq, starts_with, length, if◌then◌else◌,
}

pub data Locale : Type 0 where
  zh_cn zh_tw en_us ko fr de es tr : Locale

abbrev pub default_locale : Locale
default_locale = en_us

-- The name under which a language is kept.
abbrev pub locale_name : Locale → Text
locale_name zh_cn = lit "zh-CN"
locale_name zh_tw = lit "zh-TW"
locale_name en_us = lit "en-US"
locale_name ko = lit "ko"
locale_name fr = lit "fr"
locale_name de = lit "de"
locale_name es = lit "es"
locale_name tr = lit "tr"

-- What a read of the browser's storage gives: it may throw.
pub data Stored : Type 0 where
  thrown : Stored
  kept : Option Text → Stored

abbrev pub known_locale : Text → Locale
known_locale v =
    if str_eq v (lit "zh-CN")
    then zh_cn
    else if str_eq v (lit "zh-TW")
    then zh_tw
    else if str_eq v (lit "en-US")
    then en_us
    else if str_eq v (lit "ko")
    then ko
    else if str_eq v (lit "fr")
    then fr
    else if str_eq v (lit "de")
    then de
    else if str_eq v (lit "es")
    then es
    else if str_eq v (lit "tr")
    then tr
    else default_locale

unfoldable pub initial_locale : Stored → Locale
unfolding str_eq
initial_locale thrown = default_locale
initial_locale (kept none) = default_locale
initial_locale (kept (some v)) = known_locale v

pub record I18n : Type 0 where
  pub locale : Locale
  pub stored : Stored

-- `setLocale`, where the write to the storage works or throws.
unfoldable pub set_locale : Bool → Locale → I18n → I18n
set_locale writes l st = record {
  locale = l;
  stored = if writes then kept (some (locale_name l)) else st.stored;
}

-- `s.split(token).join(v)` for a token that is not empty; the first argument counts the code units of
-- the token that are still to be left out.
unfoldable pub replace_all : ℕ → Text → Text → Text → Text
unfolding starts_with
replace_all skip token v [] = []
replace_all (suc skip) token v (c ∷ s) = replace_all skip token v s
replace_all zero token v (c ∷ s) =
    let inside = replace_all (length token - 1) token v s in
    let outside = replace_all zero token v s in
    if starts_with (c ∷ s) token then v ++ inside else c ∷ outside

abbrev pub token_of : Text → Text
token_of k = b'{' ∷ (k ++ (b'}' ∷ []))

-- The loop of `t` over the values, in their order.
unfoldable pub interpolate : List (Text × Text) → Text → Text
unfolding replace_all
interpolate [] s = s
interpolate ((k, v) ∷ params) s = interpolate params (replace_all zero (token_of k) v s)

-- `t(key, params)` with the texts of the current language; no values are an empty list.
unfoldable pub t : (Text → Option Text) → Text → List (Text × Text) → Text
unfolding interpolate
t texts key params = interpolate params (or_else (texts key) key)

abbrev pub te : (Text → Option Text) → Text → Bool
te texts key = is_some (texts key)

-- A language that is chosen, where the storage takes it, is the current one and the one of the next start.
pub initial_locale-set_locale :
    (l : Locale) (st : I18n)
    → ((set_locale true l st).locale ≡ l) × (initial_locale (set_locale true l st).stored ≡ l)
unfolding initial_locale set_locale
initial_locale-set_locale zh_cn st = (refl, refl)
initial_locale-set_locale zh_tw st = (refl, refl)
initial_locale-set_locale en_us st = (refl, refl)
initial_locale-set_locale ko st = (refl, refl)
initial_locale-set_locale fr st = (refl, refl)
initial_locale-set_locale de st = (refl, refl)
initial_locale-set_locale es st = (refl, refl)
initial_locale-set_locale tr st = (refl, refl)
