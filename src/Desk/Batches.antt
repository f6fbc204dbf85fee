-- ===== src/Desk/Batches.antt =====
-- Proofs about the batches of frontend/src/composables/useModals.ts.
use mathlib.Core.List.{append_assoc, append-nil}
use phpo.Base.{
  ℕ, suc, ◌+◌, ◌≡◌, refl, sym, ap, ◌∙◌, Bool, true, false, Option, some, or_else, List, [], ◌∷◌,
  ◌++◌, map, filter, length, Text, lit, if◌then◌else◌, arith,
}
use phpo.Task.{TaskMeta}
use phpo.Task.Busy.{busy_key_of}
use phpo.Task.Demo.{start}
use phpo.Sync.{context_of}
use phpo.Sync.Notes.{kind_text}
use phpo.Preflight.Check.{preflight}
use phpo.Messages.Language.{t}
use phpo.Desk.{Row, BatchAction, Sent, Desk, Around, err, said, toast, world_of}
use phpo.Desk.Submit.{default_meta, run_task, send, submit_write}
use phpo.Desk.Services.{
  service_label, verb, verb_key, action_of, service_meta, action_name, call_of, check_row,
  submit_row, enqueue_batch,
}

-- What a check reads, and the calls.
abbrev pub Still : Desk → Desk → Type 0
Still d d' =
    (d'.stores.app ≡ d.stores.app) × (d'.cache_entries ≡ d.cache_entries) × (d'.sent ≡ d.sent)

if_Still : (b : Bool) (d x y : Desk) → Still d x → Still d y → Still d (if b then x else y)
if_Still true d x y f g = f
if_Still false d x y f g = g

pub run_task-Still :
    (e : Around) (args : List Text) (label : Option Text) (meta : Option TaskMeta) (d : Desk)
    → Still d (run_task e args label meta d)
unfolding run_task toast
run_task-Still e args label meta d =
    let given = or_else meta (default_meta args) in
    let started =
      start (context_of e.outside d.stores.app) (e.script args given) args label given
        (e.outside.now, e.timer) d.stores.task in
    let after : Desk = record d { stores = record (d.stores) { task = started.0 } } in
    if_Still started.1 d after (toast (said (t e.texts (lit "err.taskBusy") [])) err after)
      (refl, refl, refl) (refl, refl, refl)

pub world_eq :
    (e : Around) (d d' : Desk)
    → d'.stores.app ≡ d.stores.app
    → d'.cache_entries ≡ d.cache_entries
    → world_of e d' ≡ world_of e d
world_eq e d d' f g = rw (f, g) refl

-- The call that a row makes, with its button.
abbrev pub sent_row : BatchAction → Row → Sent
sent_row action r = record {
  call = call_of action r.kind r.version;
  key = busy_key_of (service_meta (action_name action) r.kind r.version);
}

if_true : (b : Bool) (x y : Desk) → b ≡ true → (if b then x else y) ≡ x
if_true true x y e = refl
if_true false x y e = cc

submit_row-sent :
    (e : Around) (action : BatchAction) (r : Row) (d : Desk)
    → e.outside.has_backend ≡ true
    → (world_of e (submit_row e action r d) ≡ world_of e d)
      × ((submit_row e action r d).sent ≡ d.sent ++ sent_row action r ∷ [])
unfolding submit_row submit_write send
submit_row-sent e action r d h =
    let args = kind_text r.kind ∷ verb action ∷ r.version ∷ [] in
    let label = service_label e (verb_key action) r.kind r.version in
    let meta = service_meta (action_name action) r.kind r.version in
    let s = sent_row action r in
    let started = run_task e args (some label) (some meta) d in
    let same : submit_row e action r d ≡ send s.call s.key started =
      if_true e.outside.has_backend (send s.call s.key started) started h in
    let (f, g, k) = run_task-Still e args (some label) (some meta) d in
    (
      ap (world_of e) same ∙ world_eq e d started f g,
      ap (λ x. x.sent) same ∙ ap (λ x. x ++ s ∷ []) k,
    )

module _ (e : Around) (action : BatchAction) (d₀ : Desk) (h : e.outside.has_backend ≡ true) where
  abbrev pub passing : List Row → List Row
  passing rows = filter (λ r. (check_row e d₀ action r).ok) rows

  abbrev pub Queues : List Row → ℕ → Desk → Desk × ℕ → Type 0
  Queues rows skipped d (after, left_out) =
      (after.sent ≡ d.sent ++ map (sent_row action) (passing rows))
      × (left_out + length (passing rows) ≡ skipped + length rows)

  enqueue_batch-Queues :
      (rows : List Row) (skipped : ℕ) (d : Desk)
      → world_of e d ≡ world_of e d₀
      → Queues rows skipped d (enqueue_batch e action rows skipped d)
  unfolding enqueue_batch
  enqueue_batch-Queues [] skipped d f = (sym (append-nil d.sent), refl)
  enqueue_batch-Queues (r ∷ rs) skipped d f =
      let next = submit_row e action r d in
      let (g, k) = submit_row-sent e action r d h in
      go (enqueue_batch-Queues rs skipped next (g ∙ f)) (enqueue_batch-Queues rs (suc skipped) d f)
        k (check_row e d action r).ok (check_row e d₀ action r).ok
        (ap (λ w. (preflight w (action_of action r.kind r.version)).ok) f)
    where
      go :
          Queues rs skipped
            (submit_row e action r d)
            (enqueue_batch e action rs skipped (submit_row e action r d))
          → Queues rs (suc skipped) d (enqueue_batch e action rs (suc skipped) d)
          → (submit_row e action r d).sent ≡ d.sent ++ sent_row action r ∷ []
          → (b c : Bool) → b ≡ c
          → let (after, left_out) =
              enqueue_batch e action rs
                (if b then skipped else suc skipped)
                (if b then submit_row e action r d else d) in
            let kept = if c then r ∷ passing rs else passing rs in
            (after.sent ≡ d.sent ++ map (sent_row action) kept)
            × (left_out + length kept ≡ skipped + suc (length rs))
      go (m, n) _ k true true q =
          let kept = map (sent_row action) (passing rs) in
          (
            m ∙ (ap (λ x. x ++ kept) k ∙ append_assoc d.sent (sent_row action r ∷ []) kept),
            omega (arith, n),
          )
      go _ (m, n) k false false q = (m, omega (arith, n))
      go _ _ k true false q = cc
      go _ _ k false true q = cc

-- With a backend, a batch sends the calls of exactly the rows that pass the check as it stands when the
-- batch starts, in their order, and counts the other rows.
pub enqueue_batch_lem :
    (e : Around) (action : BatchAction) (rows : List Row) (d : Desk)
    (h : e.outside.has_backend ≡ true)
    → Queues e action d h rows 0 d (enqueue_batch e action rows 0 d)
enqueue_batch_lem e action rows d h = enqueue_batch-Queues e action d h rows 0 d refl
