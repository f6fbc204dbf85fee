-- ===== src/Messages/Priority.antt =====
-- Proofs about the order of the table of frontend/src/utils/errShapes.ts and the search through it.
use phpo.Base.{
  ℕ, ◌≤◌, ◌≡◌, refl, sym, inl, inr, Bool, true, false, Bool-cases, Option, none, some, is_some,
  List, [], ◌∷◌, ◌++◌, str_eq, All, map, Text, length, arith, ◌⊎◌, if◌then◌else◌,
}
use phpo.Messages.Shapes.{Shape, Compiled, key_count, compile, exec}
use phpo.Messages.Matching.{fill, Fits, exec-some}
use phpo.Messages.Table.{
  signals, is_sooner, insert_shape, sort_shapes, table, strip_error_prefix, ShapeMatch, zip_keys,
  first_match, exec_either, hit_or, match_in, match_shape,
}

-- A shape is among those of a list.
abbrev pub Holds : Compiled → List Compiled → Type 0
Holds c [] = ⊥
Holds c (e ∷ es) = (e ≡ c) ⊎ Holds c es

-- Each shape has at most as many placeholders as those after it.
abbrev pub IsOrdered : List Compiled → Type 0
IsOrdered [] = Unit
IsOrdered (e ∷ es) = All (λ d. key_count e ≤ key_count d) es × IsOrdered es

insert_shape-All :
    (n : ℕ) (a : Compiled) (es : List Compiled)
    → n ≤ key_count a
    → All (λ d. n ≤ key_count d) es
    → All (λ d. n ≤ key_count d) (insert_shape a es)
unfolding insert_shape
insert_shape-All n a [] h _ = (h, tt)
insert_shape-All n a (b ∷ bs) h (k, ks) = elim (Bool-cases (is_sooner b a)) [
  | inl e ↦ rw e (k, insert_shape-All n a bs h ks)
  | inr e ↦ rw e (h, (k, ks))
]

All-weaken :
    (m n : ℕ) (es : List Compiled)
    → m ≤ n
    → All (λ d. n ≤ key_count d) es
    → All (λ d. m ≤ key_count d) es
All-weaken m n [] h _ = tt
All-weaken m n (e ∷ es) h (k, ks) = (omega arith, All-weaken m n es h ks)

sooner_le : (a b : Compiled) → is_sooner b a ≡ true → key_count b ≤ key_count a
sooner_le a b h = ground arith

not_sooner_le : (a b : Compiled) → is_sooner b a ≡ false → key_count a ≤ key_count b
not_sooner_le a b h = ground arith

insert_shape-IsOrdered :
    (a : Compiled) (es : List Compiled) → IsOrdered es → IsOrdered (insert_shape a es)
unfolding insert_shape
insert_shape-IsOrdered a [] _ = (tt, tt)
insert_shape-IsOrdered a (b ∷ bs) (k, h) = elim (Bool-cases (is_sooner b a)) [
  | inl e ↦
      rw e (insert_shape-All (key_count b) a bs (sooner_le a b e) k, insert_shape-IsOrdered a bs h)
  | inr e ↦
      let le = not_sooner_le a b e in
      rw e ((le, All-weaken (key_count a) (key_count b) bs le k), (k, h))
]

pub sort_shapes-IsOrdered : (es : List Compiled) → IsOrdered (sort_shapes es)
unfolding sort_shapes
sort_shapes-IsOrdered [] = tt
sort_shapes-IsOrdered (e ∷ es) =
    insert_shape-IsOrdered e (sort_shapes es) (sort_shapes-IsOrdered es)

insert_shape-Holds :
    (c a : Compiled) (es : List Compiled) → (a ≡ c) ⊎ Holds c es → Holds c (insert_shape a es)
unfolding insert_shape
insert_shape-Holds c a [] h = h
insert_shape-Holds c a (b ∷ bs) h = elim (Bool-cases (is_sooner b a)) [
  | inl e ↦ rw e (elim h [
    | inl f ↦ inr (insert_shape-Holds c a bs (inl f))
    | inr (inl f) ↦ inl f
    | inr (inr f) ↦ inr (insert_shape-Holds c a bs (inr f))
  ])
  | inr e ↦ rw e h
]

pub sort_shapes-Holds : (c : Compiled) (es : List Compiled) → Holds c es → Holds c (sort_shapes es)
unfolding sort_shapes
sort_shapes-Holds c [] h = h
sort_shapes-Holds c (e ∷ es) (inl f) = insert_shape-Holds c e (sort_shapes es) (inl f)
sort_shapes-Holds c (e ∷ es) (inr h) =
    insert_shape-Holds c e (sort_shapes es) (inr (sort_shapes-Holds c es h))

length-zip_keys : (ps : List (Text × Text)) (vs : List Text) → length (zip_keys ps vs) ≤ length ps
length-zip_keys [] vs = omega arith
length-zip_keys ((key, l) ∷ ps) [] = omega arith
length-zip_keys ((key, l) ∷ ps) (v ∷ vs) = omega (arith, length-zip_keys ps vs)

hit_or_least :
    (e : Compiled) (n : ℕ) (o : Option (List Text)) (later : Option ShapeMatch)
    → (is_some o ≡ true → key_count e ≤ n)
    → (o ≡ none → (m : ShapeMatch) × (later ≡ some m) × (length m.params ≤ n))
    → (m : ShapeMatch) × (hit_or e o later ≡ some m) × (length m.params ≤ n)
hit_or_least e n (some vs) later h k =
    let le : key_count e ≤ n = h refl in
    (
      record { code = e.code; params = zip_keys e.shape.rest vs },
      refl,
      omega (arith, le, length-zip_keys e.shape.rest vs),
    )
hit_or_least e n none later h k = k refl

All-Holds :
    (n : ℕ) (c : Compiled) (es : List Compiled)
    → All (λ d. n ≤ key_count d) es
    → Holds c es
    → n ≤ key_count c
All-Holds n c [] _ h = elim h [ ]
All-Holds n c (d ∷ es) (k, ks) (inl f) = rw (sym f) k
All-Holds n c (d ∷ es) (k, ks) (inr h) = All-Holds n c es ks h

none_not_some {ℓ} : {A : Type ℓ} (o : Option A) → o ≡ none → is_some o ≡ true → ⊥
none_not_some none e h = cc
none_not_some (some a) e h = cc

match_in_least :
    (es : List Compiled) (c : Compiled) (line stripped : Text)
    → IsOrdered es
    → Holds c es
    → is_some (exec_either c.shape line stripped) ≡ true
    → (m : ShapeMatch) × (match_in es line stripped ≡ some m) × (length m.params ≤ key_count c)
unfolding match_in
match_in_least [] c line stripped _ h _ = elim h [ ]
match_in_least (e ∷ es) c line stripped (k, o) h g =
    hit_or_least e (key_count c) (exec_either e.shape line stripped) (match_in es line stripped)
      (λ _. elim h [ inl f ↦ rw f (omega arith) | inr j ↦ All-Holds (key_count e) c es k j ])
      (λ n. elim h [
        | inl f ↦ elim (none_not_some (exec_either e.shape line stripped) n (rw f g)) [ ]
        | inr j ↦ match_in_least es c line stripped o j g
      ])

-- A line of one of the known sentences is recognised, as a sentence that has no more placeholders.
pub match_shape_least :
    (c : Compiled) (line : Text)
    → Holds c (map compile signals)
    → is_some (exec_either c.shape line (strip_error_prefix line)) ≡ true
    → (m : ShapeMatch) × (match_shape line ≡ some m) × (length m.params ≤ key_count c)
unfolding match_shape table
match_shape_least c line h g =
    match_in_least table c line (strip_error_prefix line)
      (sort_shapes-IsOrdered (map compile signals)) (sort_shapes-Holds c (map compile signals) h) g

hit_or-some :
    (e : Compiled) (o : Option (List Text)) (later : Option ShapeMatch) {m : ShapeMatch}
    → hit_or e o later ≡ some m
    → ((vs : List Text) × (o ≡ some vs)
        × (m ≡ record { code = e.code; params = zip_keys e.shape.rest vs }))
      ⊎ (later ≡ some m)
hit_or-some e (some vs) later h = inl (vs, refl, cc)
hit_or-some e none later h = inr h

match_in-some :
    (es : List Compiled) (line stripped : Text) {m : ShapeMatch}
    → match_in es line stripped ≡ some m
    → (c : Compiled) × (vs : List Text) × Holds c es
      × (exec_either c.shape line stripped ≡ some vs)
      × (m ≡ record { code = c.code; params = zip_keys c.shape.rest vs })
unfolding match_in
match_in-some [] line stripped e = cc
match_in-some (d ∷ es) line stripped e =
    elim (hit_or-some d (exec_either d.shape line stripped) (match_in es line stripped) e) [
      | inl (vs, f, g) ↦ (d, vs, inl refl, f, g)
      | inr f ↦ let (c, vs, h, g, j) = match_in-some es line stripped f in (c, vs, inr h, g, j)
    ]

first_match-some :
    (o p : Option (List Text)) {vs : List Text}
    → first_match o p ≡ some vs
    → (o ≡ some vs) ⊎ (p ≡ some vs)
first_match-some (some ws) p e = inl e
first_match-some none p e = inr e

if-none-some :
    (b : Bool) (o : Option (List Text)) {vs : List Text}
    → (if b then none else o) ≡ some vs
    → o ≡ some vs
if-none-some true o e = cc
if-none-some false o e = e

-- One of two lines is a shape's literals around some values.
abbrev pub Says : Shape → List Text → Text → Type 0
Says s vs line = (line ≡ s.first ++ fill s.rest vs) × Fits s.rest vs

exec_either-Says :
    (s : Shape) (line stripped : Text) {vs : List Text}
    → exec_either s line stripped ≡ some vs
    → Says s vs line ⊎ Says s vs stripped
unfolding exec_either
exec_either-Says s line stripped e =
    elim (first_match-some (exec s line) (if str_eq stripped line then none else exec s stripped)
      e) [
        | inl f ↦ inl (exec-some s line f)
        | inr f ↦
            inr (exec-some s stripped (if-none-some (str_eq stripped line) (exec s stripped) f))
      ]

-- What is recognised is one of the known sentences, said by the line as it is or without its prefix.
pub match_shape-Says :
    (line : Text) (m : ShapeMatch)
    → match_shape line ≡ some m
    → (c : Compiled) × (vs : List Text) × Holds c table
      × (Says c.shape vs line ⊎ Says c.shape vs (strip_error_prefix line))
      × (m ≡ record { code = c.code; params = zip_keys c.shape.rest vs })
unfolding match_shape
match_shape-Says line m e =
    let (c, vs, h, f, g) = match_in-some table line (strip_error_prefix line) e in
    (c, vs, h, exec_either-Says c.shape line (strip_error_prefix line) f, g)
