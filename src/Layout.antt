-- ===== src/Layout.antt =====
-- The layout's store and its limits (frontend/src/stores/layoutStore.ts, frontend/src/constants/layout.ts).
-- Widths and heights are whole pixels, and the scale is in thousandths, on which two scales that differ
-- by less than 1e-6 are equal.
pub mod Within
use phpo.Base.{
  ℕ, ◌+◌, ◌==◌, ltb, leb, min, max, Bool, true, false, not, Option, none, some, List, [], ◌∷◌, Text,
  reverse, find, decimal, if◌then◌else◌,
}
use phpo.Preflight.Validate.{drop_while, is_space}
use phpo.Preflight.Ports.{parse_int, starts_with_digit}

abbrev pub clamp : ℕ → ℕ → ℕ → ℕ
clamp v lo hi = min (max v lo) hi

pub record Limits : Type 0 where
  pub low : ℕ
  pub high : ℕ
  pub usual : ℕ

abbrev pub sidebar_limits : Limits
sidebar_limits = record { low = 64; high = 380; usual = 200 }

abbrev pub drawer_limits : Limits
drawer_limits = record { low = 120; high = 600; usual = 160 }

abbrev pub split_limits : Limits
split_limits = record { low = 40; high = 80; usual = 70 }

pub data PresetName : Type 0 where
  compact default wide : PresetName

-- The widths of the sidebar and the heights of the drawer.
abbrev pub preset : PresetName → ℕ × ℕ
preset compact = (200, 160)
preset default = (232, 220)
preset wide = (280, 320)

abbrev pub scale_min : ℕ
scale_min = 750

abbrev pub scale_max : ℕ
scale_max = 1500

abbrev pub scale_default : ℕ
scale_default = 1000

abbrev pub snap : List ℕ
snap = 750 ∷ 800 ∷ 900 ∷ 1000 ∷ 1100 ∷ 1250 ∷ 1500 ∷ []

pub record LayoutStore : Type 0 where
  pub sidebar_width : ℕ
  pub drawer_height : ℕ
  pub drawer_split : ℕ
  pub scale : ℕ

abbrev pub is_negative : Text → Bool
is_negative [] = false
is_negative (c ∷ s) = if c == b'-' then starts_with_digit s else false

-- A stored text is read by `parseInt`; a negative number is below every limit.
unfoldable pub read_num : Option Text → ℕ → ℕ → ℕ → ℕ
unfolding drop_while is_space
read_num none fallback lo hi = fallback
read_num (some raw) fallback lo hi = elim (parse_int raw) [
  | some n ↦ clamp n lo hi
  | none ↦ if is_negative (drop_while is_space raw) then clamp 0 lo hi else fallback
]

-- `readScale`, with what `parseFloat` makes of the stored text, `none` for NaN and for no text.
unfoldable pub read_scale : Option ℕ → ℕ
read_scale none = scale_default
read_scale (some n) = clamp n scale_min scale_max

-- The store at the start: the stored texts of the sidebar, the drawer and the split, and the scale.
unfoldable pub open_layout : Option Text → Option Text → Option Text → Option ℕ → LayoutStore
unfolding read_scale
open_layout sidebar drawer split scale = record {
  sidebar_width = read_num sidebar (preset compact).0 sidebar_limits.low sidebar_limits.high;
  drawer_height = read_num drawer (preset compact).1 drawer_limits.low drawer_limits.high;
  drawer_split = read_num split split_limits.usual split_limits.low split_limits.high;
  scale = read_scale scale;
}

-- The texts that `save` stores for the sidebar, the drawer and the split.
unfoldable pub save : LayoutStore → Text × Text × Text
save s = (decimal s.sidebar_width, decimal s.drawer_height, decimal s.drawer_split)

unfoldable pub set_sidebar : ℕ → LayoutStore → LayoutStore
set_sidebar w s = record s { sidebar_width = clamp w sidebar_limits.low sidebar_limits.high }

unfoldable pub set_drawer : ℕ → LayoutStore → LayoutStore
set_drawer h s = record s { drawer_height = clamp h drawer_limits.low drawer_limits.high }

unfoldable pub set_split : ℕ → LayoutStore → LayoutStore
set_split p s = record s { drawer_split = clamp p split_limits.low split_limits.high }

-- The result is whether the scale has changed; `none` is NaN.
unfoldable pub set_scale : Option ℕ → LayoutStore → LayoutStore × Bool
set_scale none s = (s, false)
set_scale (some v) s =
    let clamped = clamp v scale_min scale_max in
    if clamped == s.scale then (s, false) else (record s { scale = clamped }, true)

-- The first step of the scale above it, and the last below it.
unfoldable pub step_above : ℕ → Option ℕ
step_above scale = find (λ v. ltb scale v) snap

unfoldable pub step_below : ℕ → Option ℕ
step_below scale = find (λ v. ltb v scale) (reverse snap)

unfoldable pub zoom_in : LayoutStore → LayoutStore × Bool
zoom_in s = elim (step_above s.scale) [ none ↦ (s, false) | some next ↦ set_scale (some next) s ]

unfoldable pub zoom_out : LayoutStore → LayoutStore × Bool
zoom_out s = elim (step_below s.scale) [ none ↦ (s, false) | some prev ↦ set_scale (some prev) s ]

unfoldable pub zoom_reset : LayoutStore → LayoutStore × Bool
zoom_reset s = if s.scale == scale_default then (s, false) else set_scale (some scale_default) s

unfoldable pub apply_preset : PresetName → LayoutStore → LayoutStore
apply_preset name s = record s { sidebar_width = (preset name).0; drawer_height = (preset name).1 }

unfoldable pub reset : LayoutStore → LayoutStore
reset s = record s {
  sidebar_width = (preset compact).0;
  drawer_height = (preset compact).1;
  drawer_split = split_limits.usual;
}
