-- ===== src/Cleanup.antt =====
-- The cleanup panel: its store (frontend/src/stores/cleanupStore.ts) and its actions
-- (frontend/src/composables/useCleanup.ts). `scan` and `clean` are split at each of their awaits;
-- `purgeCache`, `restore` and `clearExpired` are one step from their first reply on, with the further
-- replies as arguments. Cleanup/Settled holds proofs.
pub mod Settled
use phpo.Task.History.{Operation}
use phpo.Base.{
  ℕ, ◌+◌, ltb, Bool, true, false, Option, none, some, List, [], ◌∷◌, ◌++◌, Text, length,
  if◌then◌else◌,
}

-- What an awaited call gives.
pub data Reply (A : Type 0) : Type 0 where
  rejected : (error : Text) → Reply A
  resolved : A → Reply A

-- The fields of a cleanup's report that are read.
pub record CleanupReport : Type 0 where
  pub removed : ℕ
  pub failed : ℕ
  pub freed_bytes : ℕ

pub data Notice : Type 0 where
  failure : Text → Notice
  cleaned cleaned_with_failures : CleanupReport → Notice
  cache_done : (freed : ℕ) → Notice
  restored : Notice
  expired_cleared : (n : ℕ) → Notice

pub data DockerResourceType : Type 0 where
  container volume network image : DockerResourceType

pub record DockerResource : Type 0 where
  pub type : DockerResourceType
  pub id : Text
  pub name : Text
  pub size : ℕ
  pub in_use : Bool

pub record OrphanReport : Type 0 where
  pub containers : List DockerResource
  pub volumes : List DockerResource
  pub networks : List DockerResource
  pub images : List DockerResource

pub record TrashEntry : Type 0 where
  pub id : ℕ
  pub kind : Text
  pub orig_path : Text
  pub trash_path : Text
  pub moved_at : Text
  pub expires_at : Text
  pub expired : Bool

pub record CleanupStore : Type 0 where
  pub orphans : OrphanReport
  pub trash : List TrashEntry
  pub operations : List Operation
  pub scanning : Bool
  pub cleaning : Bool
  pub toasts : List Notice

abbrev empty_orphans : OrphanReport
empty_orphans = record { containers = []; volumes = []; networks = []; images = [] }

abbrev pub empty_cleanup : CleanupStore
empty_cleanup = record {
  orphans = empty_orphans;
  trash = [];
  operations = [];
  scanning = false;
  cleaning = false;
  toasts = [];
}

unfoldable pub orphan_total : CleanupStore → ℕ
orphan_total s =
    length s.orphans.containers
    + length s.orphans.volumes
    + length s.orphans.networks
    + length s.orphans.images

abbrev pub tell : Notice → CleanupStore → CleanupStore
tell n s = record s { toasts = s.toasts ++ n ∷ [] }

abbrev set_orphans : Option OrphanReport → CleanupStore → CleanupStore
set_orphans none s = s
set_orphans (some o) s = record s { orphans = o }

abbrev set_trash : Option (List TrashEntry) → CleanupStore → CleanupStore
set_trash none s = s
set_trash (some list) s = record s { trash = list }

abbrev set_operations : Option (List Operation) → CleanupStore → CleanupStore
set_operations none s = s
set_operations (some ops) s = record s { operations = ops }

-- `scan`, up to its call: whether it makes one.
unfoldable pub begin_scan : CleanupStore → CleanupStore × Bool
begin_scan s = if s.scanning then (s, false) else (record s { scanning = true }, true)

unfoldable pub end_scan : Reply (Option OrphanReport) → CleanupStore → CleanupStore
end_scan (rejected error) s = record (tell (failure error) s) { scanning = false }
end_scan (resolved o) s = record (set_orphans o s) { scanning = false }

-- `loadOperations` as the last step of an action, with the `catch` of that action.
unfoldable pub load_operations : Reply (Option (List Operation)) → CleanupStore → CleanupStore
load_operations (rejected error) s = tell (failure error) s
load_operations (resolved ops) s = set_operations ops s

-- `loadTrash` and `loadOperations` at the end of an action; an error of the first ends both.
unfoldable pub load_both :
    Reply (Option (List TrashEntry)) → Reply (Option (List Operation)) → CleanupStore → CleanupStore
unfolding load_operations
load_both (rejected error) ops s = tell (failure error) s
load_both (resolved list) ops s = load_operations ops (set_trash list s)

-- `clean`, up to its call: whether it makes one.
unfoldable pub begin_clean : CleanupStore → CleanupStore × Bool
begin_clean s = if s.cleaning then (s, false) else (record s { cleaning = true }, true)

abbrev summary : CleanupReport → Notice
summary r = if ltb 0 r.failed then cleaned_with_failures r else cleaned r

-- What `clean` awaits after a reply: nothing, the scan, the trash or the operations.
pub data CleanAwait : Type 0 where
  ended rescan trash_list operations_list : CleanAwait

-- The `finally` of `clean`.
abbrev leave_clean : CleanupStore → CleanupStore
leave_clean s = record s { cleaning = false }

-- `clean` from the report on: its `scan` makes a call only if no other scan runs.
unfoldable pub clean_reported :
    Reply (Option CleanupReport) → CleanupStore → CleanupStore × CleanAwait
unfolding begin_scan
clean_reported (rejected error) s = (leave_clean (tell (failure error) s), ended)
clean_reported (resolved none) s = (leave_clean s, ended)
clean_reported (resolved (some r)) s =
    let (begun, calls) = begin_scan (tell (summary r) s) in
    (begun, if calls then rescan else trash_list)

-- From the reply of its scan on, whose errors that scan has caught.
unfoldable pub clean_rescanned :
    Reply (Option OrphanReport) → CleanupStore → CleanupStore × CleanAwait
unfolding end_scan
clean_rescanned reply s = (end_scan reply s, trash_list)

-- From the reply of `listTrash` on.
unfoldable pub clean_trash_listed :
    Reply (Option (List TrashEntry)) → CleanupStore → CleanupStore × CleanAwait
clean_trash_listed (rejected error) s = (leave_clean (tell (failure error) s), ended)
clean_trash_listed (resolved list) s = (set_trash list s, operations_list)

-- From the reply of `listOperations` on.
unfoldable pub clean_operations_listed :
    Reply (Option (List Operation)) → CleanupStore → CleanupStore × CleanAwait
unfolding load_operations
clean_operations_listed reply s = (leave_clean (load_operations reply s), ended)

unfoldable pub purge_cache : Reply ℕ → Reply (Option (List Operation)) → CleanupStore → CleanupStore
unfolding load_operations
purge_cache (rejected error) ops s = tell (failure error) s
purge_cache (resolved freed) ops s = load_operations ops (tell (cache_done freed) s)

unfoldable pub restore :
    Reply Unit
    → Reply (Option (List TrashEntry))
    → Reply (Option (List Operation))
    → CleanupStore
    → CleanupStore
unfolding load_both
restore (rejected error) list ops s = tell (failure error) s
restore (resolved u) list ops s = load_both list ops (tell restored s)

unfoldable pub clear_expired :
    Reply ℕ
    → Reply (Option (List TrashEntry))
    → Reply (Option (List Operation))
    → CleanupStore
    → CleanupStore
unfolding load_both
clear_expired (rejected error) list ops s = tell (failure error) s
clear_expired (resolved n) list ops s = load_both list ops (tell (expired_cleared n) s)
