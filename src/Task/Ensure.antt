-- ===== src/Task/Ensure.antt =====
-- What `ensureLive` leaves behind.
use phpo.Base.{
  ℕ, ◌≡◌, refl, ◌∙◌, subst, ◌≢◌, ◌⊎◌, inl, inr, Bool-cases, Option, none, some, Option-cases, List,
  ◌∷◌, Text, str_eq, eq_iff, eq_refl, arith,
}
use phpo.Task.{TaskStatus, TaskRecord, TaskStore, Context, Params}
use phpo.Task.Records.{find_record, modify, trim}
use phpo.Task.Live.{refresh_record, fresh_record, ensure_live}
use phpo.Task.Pool.{find_record-cons, find_record-modify, find_record-trim, find_record-trim_head}

module _ (cmds : List (Text × List Text)) (label type : Text) (total : ℕ) (code : Option Text)
    (params : Option Params) where
  pub refresh_record-id :
      (r : TaskRecord) → (refresh_record cmds label type total code params r).id ≡ r.id
  unfolding refresh_record
  refresh_record-id r = refl

  pub refresh_record-status :
      (r : TaskRecord) → (refresh_record cmds label type total code params r).status ≡ r.status
  unfolding refresh_record
  refresh_record-status r = refl

  pub fresh_record-id :
      (now : ℕ) (id : Text) → (fresh_record cmds now id label type total code params).id ≡ id
  unfolding fresh_record
  fresh_record-id now id = refl

  pub fresh_record-status :
      (now : ℕ) (id : Text)
      → (fresh_record cmds now id label type total code params).status ≡ TaskStatus.running
  unfolding fresh_record
  fresh_record-status now id = refl

module _ (ctx : Context) (id label type : Text) (total : ℕ) (code : Option Text)
    (params : Option Params) (s : TaskStore) where
  abbrev refresh : TaskRecord → TaskRecord
  refresh = refresh_record s.cmd_by_label label type total code params

  abbrev fresh : TaskRecord
  fresh = fresh_record s.cmd_by_label ctx.now id label type total code params

  -- The record asked for is in the pool afterwards: the old one with its gaps filled, or a new one.
  pub find_record-ensure_live :
      find_record id (ensure_live ctx id label type total code params s).records
      ≡ some (elim (find_record id s.records) [ some cur ↦ refresh cur | none ↦ fresh ])
  unfolding ensure_live
  find_record-ensure_live = elim (Option-cases (find_record id s.records)) [
    | inl e ↦
        rw (e, ensure_live)
          (subst (λ j. find_record j (trim s.active_id (fresh ∷ s.records)) ≡ some fresh)
            (fresh_record-id s.cmd_by_label label type total code params ctx.now id)
            (find_record-trim_head s.active_id fresh s.records (
              ground (
                arith,
                fresh_record-status s.cmd_by_label label type total code params ctx.now id,
              ))))
    | inr (cur, e) ↦
        rw (e, ensure_live)
          (rw (
            find_record-modify id id refresh s.records
                (refresh_record-id s.cmd_by_label label type total code params),
            eq_refl id,
            e,
          ))
  ]

  -- No other record appears or changes.
  pub find_record-ensure_live_ne :
      (j : Text) {r : TaskRecord}
      → id ≢ j
      → find_record j (ensure_live ctx id label type total code params s).records ≡ some r
      → find_record j s.records ≡ some r
  unfolding ensure_live
  find_record-ensure_live_ne j {r} ne e = elim (Option-cases (find_record id s.records)) [
    | inl missing ↦ ground (
      arith,
      eq_iff fresh.id j,
      fresh_record-id s.cmd_by_label label type total code params ctx.now id,
      find_record-trim s.active_id j (fresh ∷ s.records) {r = r},
      find_record-cons j fresh s.records,
    )
    | inr (cur, found) ↦ ground (
      arith,
      eq_iff id j,
      find_record-modify id j refresh s.records
          (refresh_record-id s.cmd_by_label label type total code params),
    )
  ]

-- A record of the pool `ts` runs, or it was in `rs` with the same status.
pub record KeepsStatus (rs ts : List TaskRecord) : Type 0 where
  pub before :
      (j : Text) (r : TaskRecord)
      → find_record j ts ≡ some r
      → (r.status ≡ TaskStatus.running)
        ⊎ ((r₀ : TaskRecord) × (find_record j rs ≡ some r₀) × (r.status ≡ r₀.status))

pub KeepsStatus-refl : (rs : List TaskRecord) → KeepsStatus rs rs
KeepsStatus-refl rs = record { before = λ j r e. inr (r, e, refl) }

pub KeepsStatus-trans :
    {rs ts us : List TaskRecord} → KeepsStatus rs ts → KeepsStatus ts us → KeepsStatus rs us
KeepsStatus-trans h k = record {
  before = λ j r e. elim (k.before j r e) [
    | inl runs ↦ inl runs
    | inr (r₁, mid, same) ↦ elim (h.before j r₁ mid) [
      | inl runs ↦ inl (same ∙ runs)
      | inr (r₀, found, same₀) ↦ inr (r₀, found, same ∙ same₀)
    ]
  ];
}

-- A write that keeps a record's id and status.
pub modify-KeepsStatus :
    (id : Text) (f : TaskRecord → TaskRecord) (rs : List TaskRecord)
    → ((r : TaskRecord) → (f r).id ≡ r.id)
    → ((r : TaskRecord) → (f r).status ≡ r.status)
    → KeepsStatus rs (modify id f rs)
modify-KeepsStatus id f rs ids statuses = record {
  before = λ j r e. elim (Option-cases (find_record j rs)) [
    | inl missing ↦ ground (arith, find_record-modify id j f rs ids)
    | inr (r₀, found) ↦
        inr (r₀, found, ground (arith, statuses r₀, find_record-modify id j f rs ids))
  ];
}

pub trim-KeepsStatus : (active : Text) (rs : List TaskRecord) → KeepsStatus rs (trim active rs)
trim-KeepsStatus active rs = record {
  before = λ j r e. inr (r, find_record-trim active j rs e, refl);
}

module _ (ctx : Context) (id label type : Text) (total : ℕ) (code : Option Text)
    (params : Option Params) (s : TaskStore) where
  ensure_live-KeepsStatus_self :
      (r : TaskRecord)
      → find_record id (ensure_live ctx id label type total code params s).records ≡ some r
      → (r.status ≡ TaskStatus.running)
        ⊎ ((r₀ : TaskRecord) × (find_record id s.records ≡ some r₀) × (r.status ≡ r₀.status))
  ensure_live-KeepsStatus_self r e = elim (Option-cases (find_record id s.records)) [
    | inl missing ↦ inl (
        ground (
          arith,
          find_record-ensure_live ctx id label type total code params s,
          fresh_record-status s.cmd_by_label label type total code params ctx.now id,
        ))
    | inr (r₀, found) ↦ inr (
      r₀,
      found,
      ground (
        arith,
        find_record-ensure_live ctx id label type total code params s,
        refresh_record-status s.cmd_by_label label type total code params r₀,
      ),
    )
  ]

  pub ensure_live-KeepsStatus :
      KeepsStatus s.records (ensure_live ctx id label type total code params s).records
  ensure_live-KeepsStatus = record {
    before = λ j r e. elim (Bool-cases (str_eq id j)) [
      | inl same ↦
          let eq = (eq_iff id j).0 same in
          rw (← eq) (ensure_live-KeepsStatus_self r (rw (← eq) at e))
      | inr other ↦ inr (
        r,
        find_record-ensure_live_ne ctx id label type total code params s j
            (λ eq. ground (arith, eq_iff id j)) e,
        refl,
      )
    ];
  }
