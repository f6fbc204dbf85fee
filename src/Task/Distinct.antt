-- ===== src/Task/Distinct.antt =====
-- The pool never holds two records of one task.
use phpo.Base.{
  ltb, ◌≡◌, sym, subst, ◌≢◌, inl, inr, Bool, Bool-cases, none, List, [], ◌∷◌, ◌++◌, Text, str_eq,
  eq_iff, arith, All, filter,
}
use phpo.Task.{TaskRecord}
use phpo.Task.Records.{find_record, modify, trim}
use phpo.Task.History.{insert_newest, sort_newest}
use phpo.Task.Pool.{trim-split}

abbrev pub Absent : Text → List TaskRecord → Type 0
Absent id rs = All (λ r. r.id ≢ id) rs

abbrev pub Distinct : List TaskRecord → Type 0
Distinct [] = Unit
Distinct (r ∷ rs) = Absent r.id rs × Distinct rs

pub find_record-Absent :
    (id : Text) (rs : List TaskRecord) → find_record id rs ≡ none → Absent id rs
unfolding find_record
find_record-Absent id [] e = tt
find_record-Absent id (r ∷ rs) e = (
  λ same. ground (arith, eq_iff r.id id),
  find_record-Absent id rs (ground (arith, eq_iff r.id id)),
)

Absent-modify :
    (k id : Text) (f : TaskRecord → TaskRecord) (rs : List TaskRecord)
    → ((r : TaskRecord) → (f r).id ≡ r.id)
    → Absent k rs
    → Absent k (modify id f rs)
unfolding modify
Absent-modify k id f [] ids h = tt
Absent-modify k id f (r ∷ rs) ids (n, h) = elim (Bool-cases (str_eq r.id id)) [
  | inl e ↦ rw e (rw (ids r) n, h)
  | inr e ↦ rw e (n, Absent-modify k id f rs ids h)
]

pub Distinct-modify :
    (id : Text) (f : TaskRecord → TaskRecord) (rs : List TaskRecord)
    → ((r : TaskRecord) → (f r).id ≡ r.id)
    → Distinct rs
    → Distinct (modify id f rs)
unfolding modify
Distinct-modify id f [] ids h = tt
Distinct-modify id f (r ∷ rs) ids (n, h) = elim (Bool-cases (str_eq r.id id)) [
  | inl e ↦ rw e (rw (ids r) n, h)
  | inr e ↦ rw e (Absent-modify r.id id f rs ids n, Distinct-modify id f rs ids h)
]

Absent-prefix : (k : Text) (xs ys : List TaskRecord) → Absent k (xs ++ ys) → Absent k xs
Absent-prefix k [] ys h = tt
Absent-prefix k (x ∷ xs) ys (n, h) = (n, Absent-prefix k xs ys h)

Distinct-prefix : (xs ys : List TaskRecord) → Distinct (xs ++ ys) → Distinct xs
Distinct-prefix [] ys h = tt
Distinct-prefix (x ∷ xs) ys (n, h) = (Absent-prefix x.id xs ys n, Distinct-prefix xs ys h)

pub Distinct-trim : (active : Text) (rs : List TaskRecord) → Distinct rs → Distinct (trim active rs)
Distinct-trim active rs h =
    let (cut, same, _) = trim-split active rs in
    Distinct-prefix (trim active rs) cut (subst Distinct same h)

Absent-snoc :
    (k : Text) (xs : List TaskRecord) (r : TaskRecord)
    → Absent k xs
    → r.id ≢ k
    → Absent k (xs ++ r ∷ [])
Absent-snoc k [] r h n = (n, tt)
Absent-snoc k (x ∷ xs) r (m, h) n = (m, Absent-snoc k xs r h n)

pub Distinct-snoc :
    (xs : List TaskRecord) (r : TaskRecord) → Distinct xs → Absent r.id xs → Distinct (xs ++ r ∷ [])
Distinct-snoc [] r h a = (tt, tt)
Distinct-snoc (x ∷ xs) r (m, h) (n, a) =
    (Absent-snoc x.id xs r m (λ e. n (sym e)), Distinct-snoc xs r h a)

Absent-insert_newest :
    (k : Text) (r : TaskRecord) (xs : List TaskRecord)
    → r.id ≢ k
    → Absent k xs
    → Absent k (insert_newest r xs)
unfolding insert_newest
Absent-insert_newest k r [] n h = (n, tt)
Absent-insert_newest k r (x ∷ xs) n (m, h) = elim (Bool-cases (ltb r.started_at x.started_at)) [
  | inl e ↦ rw e (m, Absent-insert_newest k r xs n h)
  | inr e ↦ rw e (n, (m, h))
]

Distinct-insert_newest :
    (r : TaskRecord) (xs : List TaskRecord)
    → Absent r.id xs
    → Distinct xs
    → Distinct (insert_newest r xs)
unfolding insert_newest
Distinct-insert_newest r [] a h = (tt, tt)
Distinct-insert_newest r (x ∷ xs) (n, a) (m, h) =
    elim (Bool-cases (ltb r.started_at x.started_at)) [
      | inl e ↦
          rw e (Absent-insert_newest x.id r xs (λ e. n (sym e)) m, Distinct-insert_newest r xs a h)
      | inr e ↦ rw e ((n, a), (m, h))
    ]

pub Absent-sort_newest : (k : Text) (xs : List TaskRecord) → Absent k xs → Absent k (sort_newest xs)
unfolding sort_newest
Absent-sort_newest k [] h = tt
Absent-sort_newest k (x ∷ xs) (n, h) =
    Absent-insert_newest k x (sort_newest xs) n (Absent-sort_newest k xs h)

pub Distinct-sort_newest : (xs : List TaskRecord) → Distinct xs → Distinct (sort_newest xs)
unfolding sort_newest
Distinct-sort_newest [] h = tt
Distinct-sort_newest (x ∷ xs) (n, h) =
    Distinct-insert_newest x (sort_newest xs) (Absent-sort_newest x.id xs n)
      (Distinct-sort_newest xs h)

Absent-filter :
    (p : TaskRecord → Bool) (k : Text) (xs : List TaskRecord) → Absent k xs → Absent k (filter p xs)
Absent-filter p k [] h = tt
Absent-filter p k (x ∷ xs) (n, h) = ground (arith, Absent-filter p k xs h)

pub Distinct-filter :
    (p : TaskRecord → Bool) (xs : List TaskRecord) → Distinct xs → Distinct (filter p xs)
Distinct-filter p [] h = tt
Distinct-filter p (x ∷ xs) (n, h) =
    ground (arith, Absent-filter p x.id xs n, Distinct-filter p xs h)
