-- ===== src/Task/Pool.antt =====
-- The record pool: what `find`, a write and `trim` do to one another.
use mathlib.Core.List.{reverse-append, reverse-reverse, reverse-cons}
use phpo.Base.{
  ◌≤◌, ltb, ◌≡◌, refl, sym, ap, ◌∙◌, ◌⊎◌, inl, inr, true, false, Bool-cases, Option, none, some,
  List, [], ◌∷◌, ◌++◌, reverse, Text, str_eq, eq_iff, eq_refl, length, if◌then◌else◌, arith, All,
  All-reverse, length-reverse,
}
use phpo.Task.{TaskRecord}
use phpo.Task.Records.{find_record, modify, trim_oldest, trim, is_kept, records_max}

abbrev pub map_option {ℓ κ} : {A : Type ℓ} {B : Type κ} → (A → B) → Option A → Option B
map_option f none = none
map_option f (some a) = some (f a)

pub find_record-id :
    (id : Text) (rs : List TaskRecord) {r : TaskRecord} → find_record id rs ≡ some r → r.id ≡ id
unfolding find_record
find_record-id id [] e = cc
find_record-id id (x ∷ rs) {r} e = ground (arith, eq_iff x.id id, find_record-id id rs {r = r})

pub find_record-cons :
    (id : Text) (r : TaskRecord) (rs : List TaskRecord)
    → find_record id (r ∷ rs) ≡ (if str_eq r.id id then some r else find_record id rs)
unfolding find_record
find_record-cons id r rs = refl

-- A write through a found record that keeps its id shows in that record alone.
pub find_record-modify :
    (i j : Text) (f : TaskRecord → TaskRecord) (rs : List TaskRecord)
    → ((r : TaskRecord) → (f r).id ≡ r.id)
    → find_record j (modify i f rs)
      ≡ (if str_eq i j then map_option f (find_record j rs) else find_record j rs)
unfolding find_record modify
find_record-modify i j f [] keeps = ground arith
find_record-modify i j f (r ∷ rs) keeps = ground (
  arith,
  eq_iff r.id i,
  eq_iff r.id j,
  eq_iff i j,
  eq_iff (f r).id j,
  keeps r,
  find_record-modify i j f rs keeps,
)

find_record-append :
    (id : Text) (xs ys : List TaskRecord) {r : TaskRecord}
    → find_record id xs ≡ some r
    → find_record id (xs ++ ys) ≡ some r
unfolding find_record
find_record-append id [] ys e = cc
find_record-append id (x ∷ xs) ys {r} e = ground (arith, find_record-append id xs ys {r = r})

-- What `trim` may cut: neither looked at nor running.
abbrev pub IsCut : Text → TaskRecord → Type 0
IsCut active r = is_kept active r ≡ false

trim_oldest-split :
    (active : Text) (rs : List TaskRecord)
    → (cut : List TaskRecord) × (rs ≡ cut ++ trim_oldest active rs) × All (IsCut active) cut
unfolding trim_oldest
trim_oldest-split active [] = ([], refl, tt)
trim_oldest-split active (r ∷ rs) = elim (Bool-cases (ltb records_max (length (r ∷ rs)))) [
  | inl over ↦ elim (Bool-cases (is_kept active r)) [
    | inl kept ↦ ([], rw (over, kept) refl, tt)
    | inr free ↦
        let (cut, e, h) = trim_oldest-split active rs in
        (r ∷ cut, rw (over, free) (ap (◌∷◌ r) e), (free, h))
  ]
  | inr fits ↦ ([], rw fits refl, tt)
]

pub trim-split :
    (active : Text) (rs : List TaskRecord)
    → (cut : List TaskRecord) × (rs ≡ trim active rs ++ cut) × All (IsCut active) cut
unfolding trim
trim-split active rs =
    let (cut, e, h) = trim_oldest-split active (reverse rs) in
    (
      reverse cut,
      sym (reverse-reverse rs)
          ∙ ap reverse e
          ∙ reverse-append cut (trim_oldest active (reverse rs)),
      All-reverse (IsCut active) cut h,
    )

-- The pool ends within its limit, unless a record that must stay is the oldest of what is left.
trim_oldest-le :
    (active : Text) (rs : List TaskRecord)
    → (length (trim_oldest active rs) ≤ records_max)
      ⊎ ((r : TaskRecord) × (rest : List TaskRecord) × (trim_oldest active rs ≡ r ∷ rest)
          × (is_kept active r ≡ true))
unfolding trim_oldest
trim_oldest-le active [] = inl (omega arith)
trim_oldest-le active (r ∷ rs) = elim (Bool-cases (ltb records_max (length (r ∷ rs)))) [
  | inl over ↦ elim (Bool-cases (is_kept active r)) [
    | inl kept ↦ inr (r, rs, rw (over, kept) refl, kept)
    | inr free ↦ rw (over, free) (trim_oldest-le active rs)
  ]
  | inr fits ↦ rw fits (inl (ground arith))
]

pub trim-le :
    (active : Text) (rs : List TaskRecord)
    → (length (trim active rs) ≤ records_max)
      ⊎ ((r : TaskRecord) × (rest : List TaskRecord) × (trim active rs ≡ rest ++ r ∷ [])
          × (is_kept active r ≡ true))
unfolding trim
trim-le active rs = elim (trim_oldest-le active (reverse rs)) [
  | inl le ↦ inl (omega (arith, length-reverse {0} (trim_oldest active (reverse rs))))
  | inr (r, rest, e, kept) ↦ inr (r, reverse rest, ap reverse e ∙ reverse-cons r rest, kept)
]

-- What is found after a trim was found before it.
pub find_record-trim :
    (active id : Text) (rs : List TaskRecord) {r : TaskRecord}
    → find_record id (trim active rs) ≡ some r
    → find_record id rs ≡ some r
find_record-trim active id rs {r} e =
    let (cut, same, _) = trim-split active rs in
    rw same (find_record-append id (trim active rs) cut e)

-- A trim keeps a head that runs.
find_record-prefix_head :
    (active : Text) (r : TaskRecord) (rs kept cut : List TaskRecord)
    → is_kept active r ≡ true
    → r ∷ rs ≡ kept ++ cut
    → All (IsCut active) cut
    → find_record r.id kept ≡ some r
unfolding find_record
find_record-prefix_head active r rs [] [] k e h = cc
find_record-prefix_head active r rs [] (c ∷ cut) k e h = ground arith
find_record-prefix_head active r rs (x ∷ kept) cut k e h = ground (arith, eq_refl r.id)

pub find_record-trim_head :
    (active : Text) (r : TaskRecord) (rs : List TaskRecord)
    → is_kept active r ≡ true
    → find_record r.id (trim active (r ∷ rs)) ≡ some r
find_record-trim_head active r rs k =
    let (cut, same, h) = trim-split active (r ∷ rs) in
    find_record-prefix_head active r rs (trim active (r ∷ rs)) cut k same h

-- `trim` cuts records from the old end of the pool only, and none that is looked at or that runs; what
-- it leaves is within the limit, or ends in a record that must stay.
pub trim_lem :
    (active : Text) (rs : List TaskRecord)
    → ((cut : List TaskRecord) × (rs ≡ trim active rs ++ cut) × All (IsCut active) cut)
      × ((length (trim active rs) ≤ records_max)
          ⊎ ((r : TaskRecord) × (rest : List TaskRecord) × (trim active rs ≡ rest ++ r ∷ [])
              × (is_kept active r ≡ true)))
trim_lem active rs = (trim-split active rs, trim-le active rs)
