-- ===== src/Cleanup/Settled.antt =====
-- Proofs about the flags of frontend/src/stores/cleanupStore.ts.
use phpo.Base.{
  ℕ, suc, ◌+◌, ◌≤◌, ltb, arith, ◌≡◌, refl, ◌∙◌, Bool, false, Option, none, some, List,
  if◌then◌else◌,
}
use phpo.Task.History.{Operation}
use phpo.Cleanup.{
  Reply, rejected, resolved, CleanupReport, OrphanReport, TrashEntry, CleanupStore, Notice,
  cache_done, expired_cleared, tell, begin_scan, end_scan, load_operations, load_both, begin_clean,
  CleanAwait, ended, rescan, trash_list, operations_list, clean_reported, clean_rescanned,
  clean_trash_listed, clean_operations_listed, purge_cache, restore, clear_expired, empty_cleanup,
}

end_scan-scanning :
    (reply : Reply (Option OrphanReport)) (s : CleanupStore) → (end_scan reply s).scanning ≡ false
unfolding end_scan
end_scan-scanning (rejected error) s = refl
end_scan-scanning (resolved o) s = refl

-- Neither flag is touched.
abbrev pub SameFlags : CleanupStore → CleanupStore → Type 0
SameFlags s s' = (s'.scanning ≡ s.scanning) × (s'.cleaning ≡ s.cleaning)

SameFlags-trans : (a b c : CleanupStore) → SameFlags a b → SameFlags b c → SameFlags a c
SameFlags-trans a b c (e, f) (g, h) = (g ∙ e, h ∙ f)

load_operations-SameFlags :
    (ops : Reply (Option (List Operation))) (s : CleanupStore) → SameFlags s (load_operations ops s)
unfolding load_operations
load_operations-SameFlags (rejected error) s = (refl, refl)
load_operations-SameFlags (resolved none) s = (refl, refl)
load_operations-SameFlags (resolved (some ops)) s = (refl, refl)

load_both-SameFlags :
    (list : Reply (Option (List TrashEntry))) (ops : Reply (Option (List Operation)))
    (s : CleanupStore)
    → SameFlags s (load_both list ops s)
unfolding load_both
load_both-SameFlags (rejected error) ops s = (refl, refl)
load_both-SameFlags (resolved none) ops s = load_operations-SameFlags ops s
load_both-SameFlags (resolved (some list)) ops s =
    load_operations-SameFlags ops (record s { trash = list })

-- The calls of the panel that have no reply yet: the scans of its button, and each cleanup by what it
-- awaits.
pub record Pending : Type 0 where
  pub scans : ℕ
  pub removals : ℕ
  pub rescans : ℕ
  pub trash_lists : ℕ
  pub operation_lists : ℕ

abbrev pub nothing_pending : Pending
nothing_pending = record {
  scans = 0;
  removals = 0;
  rescans = 0;
  trash_lists = 0;
  operation_lists = 0;
}

-- A cleanup goes on to its next call.
abbrev pub awaiting : CleanAwait → Pending → Pending
awaiting ended p = p
awaiting rescan p = record p { rescans = suc p.rescans }
awaiting trash_list p = record p { trash_lists = suc p.trash_lists }
awaiting operations_list p = record p { operation_lists = suc p.operation_lists }

-- A panel that is used: its store, and the calls that have no reply yet. Each reply comes as a step of
-- its own, in any order with the others; the actions that touch neither flag are one step.
pub data Panel : CleanupStore → Pending → Type 0 where
  opened : Panel empty_cleanup nothing_pending
  scan_asked :
      (s : CleanupStore) (p : Pending)
      → Panel s p
      → Panel (begin_scan s).0 (if (begin_scan s).1 then record p { scans = suc p.scans } else p)
  scan_answered :
      (s : CleanupStore) (p : Pending) (reply : Reply (Option OrphanReport))
      → Panel s (record p { scans = suc p.scans })
      → Panel (end_scan reply s) p
  clean_asked :
      (s : CleanupStore) (p : Pending)
      → Panel s p
      → Panel
          (begin_clean s).0
          (if (begin_clean s).1 then record p { removals = suc p.removals } else p)
  reported :
      (s : CleanupStore) (p : Pending) (reply : Reply (Option CleanupReport))
      → Panel s (record p { removals = suc p.removals })
      → Panel (clean_reported reply s).0 (awaiting (clean_reported reply s).1 p)
  rescanned :
      (s : CleanupStore) (p : Pending) (reply : Reply (Option OrphanReport))
      → Panel s (record p { rescans = suc p.rescans })
      → Panel (clean_rescanned reply s).0 (awaiting (clean_rescanned reply s).1 p)
  trash_listed :
      (s : CleanupStore) (p : Pending) (reply : Reply (Option (List TrashEntry)))
      → Panel s (record p { trash_lists = suc p.trash_lists })
      → Panel (clean_trash_listed reply s).0 (awaiting (clean_trash_listed reply s).1 p)
  operations_listed :
      (s : CleanupStore) (p : Pending) (reply : Reply (Option (List Operation)))
      → Panel s (record p { operation_lists = suc p.operation_lists })
      → Panel (clean_operations_listed reply s).0 (awaiting (clean_operations_listed reply s).1 p)
  purged :
      (s : CleanupStore) (p : Pending) (reply : Reply ℕ) (ops : Reply (Option (List Operation)))
      → Panel s p
      → Panel (purge_cache reply ops s) p
  restored :
      (s : CleanupStore) (p : Pending) (reply : Reply Unit)
      (list : Reply (Option (List TrashEntry))) (ops : Reply (Option (List Operation)))
      → Panel s p
      → Panel (restore reply list ops s) p
  cleared :
      (s : CleanupStore) (p : Pending) (reply : Reply ℕ) (list : Reply (Option (List TrashEntry)))
      (ops : Reply (Option (List Operation)))
      → Panel s p
      → Panel (clear_expired reply list ops s) p

-- A flag is up exactly while its call has no reply, and there is one such call at most.
abbrev pub IsGuard : Bool → ℕ → Type 0
IsGuard flag calls = (flag ≡ ltb 0 calls) × (calls ≤ 1)

end_scan-cleaning :
    (reply : Reply (Option OrphanReport)) (s : CleanupStore)
    → (end_scan reply s).cleaning ≡ s.cleaning
unfolding end_scan
end_scan-cleaning (rejected error) s = refl
end_scan-cleaning (resolved none) s = refl
end_scan-cleaning (resolved (some o)) s = refl

-- The scans and the cleanups that are under way; the scan within a cleanup is both.
abbrev pub scans_of : Pending → ℕ
scans_of p = p.scans + p.rescans

abbrev pub cleans_of : Pending → ℕ
cleans_of p = p.removals + p.rescans + p.trash_lists + p.operation_lists

abbrev pub IsGuarded : CleanupStore → Pending → Type 0
IsGuarded s p = IsGuard s.scanning (scans_of p) × IsGuard s.cleaning (cleans_of p)

SameFlags-IsGuarded :
    (s t : CleanupStore) (p : Pending) → SameFlags s t → IsGuarded s p → IsGuarded t p
SameFlags-IsGuarded s t p (e, f) ((g, h), (k, l)) = ((e ∙ g, h), (f ∙ k, l))

begin_scan-IsGuarded :
    (s : CleanupStore) (p : Pending)
    → IsGuarded s p
    → IsGuarded (begin_scan s).0 (if (begin_scan s).1 then record p { scans = suc p.scans } else p)
unfolding begin_scan
begin_scan-IsGuarded s p ((g, h), k) = ground arith

begin_clean-IsGuarded :
    (s : CleanupStore) (p : Pending)
    → IsGuarded s p
    → IsGuarded
        (begin_clean s).0
        (if (begin_clean s).1 then record p { removals = suc p.removals } else p)
unfolding begin_clean
begin_clean-IsGuarded s p (k, (g, h)) = ground arith

clean_reported-IsGuarded :
    (s : CleanupStore) (p : Pending) (reply : Reply (Option CleanupReport))
    → IsGuarded s (record p { removals = suc p.removals })
    → IsGuarded (clean_reported reply s).0 (awaiting (clean_reported reply s).1 p)
unfolding clean_reported begin_scan
clean_reported-IsGuarded s p (rejected error) ((g, h), (k, l)) = ground arith
clean_reported-IsGuarded s p (resolved none) ((g, h), (k, l)) = ground arith
clean_reported-IsGuarded s p (resolved (some r)) ((g, h), (k, l)) = ground arith

clean_rescanned-IsGuarded :
    (s : CleanupStore) (p : Pending) (reply : Reply (Option OrphanReport))
    → IsGuarded s (record p { rescans = suc p.rescans })
    → IsGuarded (clean_rescanned reply s).0 (awaiting (clean_rescanned reply s).1 p)
unfolding clean_rescanned
clean_rescanned-IsGuarded s p reply ((g, h), (k, l)) =
    ground (arith, end_scan-scanning reply s, end_scan-cleaning reply s)

clean_trash_listed-IsGuarded :
    (s : CleanupStore) (p : Pending) (reply : Reply (Option (List TrashEntry)))
    → IsGuarded s (record p { trash_lists = suc p.trash_lists })
    → IsGuarded (clean_trash_listed reply s).0 (awaiting (clean_trash_listed reply s).1 p)
unfolding clean_trash_listed
clean_trash_listed-IsGuarded s p (rejected error) ((g, h), (k, l)) = ground arith
clean_trash_listed-IsGuarded s p (resolved none) ((g, h), (k, l)) = ground arith
clean_trash_listed-IsGuarded s p (resolved (some list)) ((g, h), (k, l)) = ground arith

clean_operations_listed-IsGuarded :
    (s : CleanupStore) (p : Pending) (reply : Reply (Option (List Operation)))
    → IsGuarded s (record p { operation_lists = suc p.operation_lists })
    → IsGuarded (clean_operations_listed reply s).0 (awaiting (clean_operations_listed reply s).1 p)
unfolding clean_operations_listed
clean_operations_listed-IsGuarded s p reply ((g, h), (k, l)) =
    ground (arith, load_operations-SameFlags reply s)

purge_cache-SameFlags :
    (reply : Reply ℕ) (ops : Reply (Option (List Operation))) (s : CleanupStore)
    → SameFlags s (purge_cache reply ops s)
unfolding purge_cache
purge_cache-SameFlags (rejected error) ops s = (refl, refl)
purge_cache-SameFlags (resolved n) ops s = load_operations-SameFlags ops (tell (cache_done n) s)

restore-SameFlags :
    (reply : Reply Unit) (list : Reply (Option (List TrashEntry)))
    (ops : Reply (Option (List Operation))) (s : CleanupStore)
    → SameFlags s (restore reply list ops s)
unfolding restore
restore-SameFlags (rejected error) list ops s = (refl, refl)
restore-SameFlags (resolved u) list ops s = load_both-SameFlags list ops (tell Notice.restored s)

clear_expired-SameFlags :
    (reply : Reply ℕ) (list : Reply (Option (List TrashEntry)))
    (ops : Reply (Option (List Operation))) (s : CleanupStore)
    → SameFlags s (clear_expired reply list ops s)
unfolding clear_expired
clear_expired-SameFlags (rejected error) list ops s = (refl, refl)
clear_expired-SameFlags (resolved n) list ops s =
    load_both-SameFlags list ops (tell (expired_cleared n) s)

-- Whatever is asked of the panel, and whatever and in whatever order the backend replies, errors
-- included: `scanning` is up exactly while a scan, be it of the button or within a cleanup, has no reply
-- yet, `cleaning` exactly while a cleanup awaits one of its replies, and there is never more than one of
-- each.
pub Panel-IsGuard : (s : CleanupStore) (p : Pending) → Panel s p → IsGuarded s p
Panel-IsGuard s p opened = ((refl, omega arith), (refl, omega arith))
Panel-IsGuard s p (scan_asked t q h) = begin_scan-IsGuarded t q (Panel-IsGuard t q h)
Panel-IsGuard s p (scan_answered t q reply h) =
    let ((g, h), (k, l)) = Panel-IsGuard t _ h in
    ground (arith, end_scan-scanning reply t, end_scan-cleaning reply t)
Panel-IsGuard s p (clean_asked t q h) = begin_clean-IsGuarded t q (Panel-IsGuard t q h)
Panel-IsGuard s p (reported t q reply h) = clean_reported-IsGuarded t q reply (Panel-IsGuard t _ h)
Panel-IsGuard s p (rescanned t q reply h) =
    clean_rescanned-IsGuarded t q reply (Panel-IsGuard t _ h)
Panel-IsGuard s p (trash_listed t q reply h) =
    clean_trash_listed-IsGuarded t q reply (Panel-IsGuard t _ h)
Panel-IsGuard s p (operations_listed t q reply h) =
    clean_operations_listed-IsGuarded t q reply (Panel-IsGuard t _ h)
Panel-IsGuard s p (purged t q reply ops h) =
    SameFlags-IsGuarded t (purge_cache reply ops t) q (purge_cache-SameFlags reply ops t)
      (Panel-IsGuard t q h)
Panel-IsGuard s p (restored t q reply list ops h) =
    SameFlags-IsGuarded t (restore reply list ops t) q (restore-SameFlags reply list ops t)
      (Panel-IsGuard t q h)
Panel-IsGuard s p (cleared t q reply list ops h) =
    SameFlags-IsGuarded t (clear_expired reply list ops t) q
      (clear_expired-SameFlags reply list ops t) (Panel-IsGuard t q h)
