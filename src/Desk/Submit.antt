-- ===== src/Desk/Submit.antt =====
-- `runTask` and `submitWrite` of frontend/src/composables/useTask.ts, `refreshBackups` of useModals.ts,
-- and what follows a call's reply there and in usePortSuggest.ts and usePhpSwitch.ts.
use phpo.Base.{
  Bool, true, false, Option, none, some, or_else, List, [], ◌∷◌, ◌++◌, Text, lit, is_given,
  if◌then◌else◌,
}
use phpo.Task.{TaskMeta}
use phpo.Task.Busy.{busy_key_of, begin_submit, end_submit}
use phpo.Task.Demo.{start}
use phpo.App.{StateSnapshot, Backup, set_backups}
use phpo.Sync.{context_of}
use phpo.Sync.Land.{sync_state}
use phpo.Messages.Language.{t}
use phpo.Desk.{
  ok, err, ToastText, said, failure, Call, create_backup, restore_backup, delete_backup,
  download_backup, Sent, Desk, Around, toast,
}

-- `meta`'s default: the first argument, or `task`.
abbrev pub default_meta : List Text → TaskMeta
default_meta args = record {
  type = elim args [ [] ↦ lit "task" | a ∷ as_ ↦ if is_given a then a else lit "task" ];
  kind = none;
  version = none;
  domain = none;
  file = none;
}

-- `runTask`, that is `start` with its toast; the meta that is not given is its default.
unfoldable pub run_task : Around → List Text → Option Text → Option TaskMeta → Desk → Desk
unfolding start toast t
run_task e args label given d =
    let meta = or_else given (default_meta args) in
    let (task, taken) =
      start (context_of e.outside d.stores.app) (e.script args meta) args label meta
        (e.outside.now, e.timer) d.stores.task in
    let after = record d { stores = record (d.stores) { task = task } } in
    let refused = toast (said (t e.texts (lit "err.taskBusy") [])) err after in
    if taken then after else refused

-- A call is made for which a button waits.
unfoldable pub send : Call → Text → Desk → Desk
unfolding begin_submit
send call key d = record d {
  stores = record (d.stores) { task = begin_submit key d.stores.task };
  sent = d.sent ++ record { call = call; key = key } ∷ [];
}

-- `submitWrite`, up to the call.
unfoldable pub submit_write : Around → List Text → Text → TaskMeta → Call → Desk → Desk
unfolding run_task send busy_key_of
submit_write e args label meta call d =
    let started = run_task e args (some label) (some meta) d in
    if e.outside.has_backend then send call (busy_key_of meta) started else started

-- What `listBackups` replies.
pub data Listing : Type 0 where
  not_listed : (error : Text) → Listing
  listed : Option (List Backup) → Listing

-- What a call replies: its error, or the file of the backup that it made, if it made one.
pub data Reply : Type 0 where
  rejected : (error : Text) → Reply
  resolved : (created : Option Text) → Reply

-- What the code of a call awaits: its reply, then the listing of the backups, then a snapshot, where it
-- asks for these; at the end the button is released.
pub data Awaits : Type 0 where
  awaits_reply : Awaits
  awaits_listing : (created : Option Text) → Awaits
  awaits_snapshot : Awaits
  released : Awaits

-- `refreshBackups`, and then what follows.
unfoldable pub refresh_then : Listing → (Desk → Desk) → Desk → Desk
unfolding set_backups toast
refresh_then (not_listed error) k d = toast (failure error) err d
refresh_then (listed none) k d = k d
refresh_then (listed (some list)) k d =
    k (record d { stores = record (d.stores) { app = set_backups list d.stores.app } })

abbrev pub said_of_file : Around → Text → Text → ToastText
said_of_file e key file = said (t e.texts key ((lit "file", file) ∷ []))

abbrev pub toast_created : Around → Option Text → Desk → Desk
toast_created e none d = d
toast_created e (some file) d = toast (said_of_file e (lit "backup.created") file) ok d

-- What is told when the backups have been listed.
unfoldable pub told : Around → Call → Option Text → Desk → Desk
unfolding toast t
told e create_backup created d = toast_created e created d
told e (restore_backup file) created d = toast (said_of_file e (lit "backup.restored") file) ok d
told e (delete_backup file) created d = toast (said_of_file e (lit "backup.deleted") file) ok d
told e _ created d = d

-- Whether the code pulls a snapshot after the reply.
abbrev pub pulls_after : Call → Bool
pulls_after (delete_backup file) = false
pulls_after (download_backup file) = false
pulls_after _ = true

abbrev pub closing : Call → Awaits
closing call = if pulls_after call then awaits_snapshot else released

-- The code from a call's reply to its next await.
unfoldable pub take_reply : Around → Call → Reply → Desk → Desk × Awaits
unfolding toast t
take_reply e call (rejected error) d = (toast (failure error) err d, closing call)
take_reply e create_backup (resolved created) d = (d, awaits_listing created)
take_reply e (restore_backup file) (resolved created) d = (d, awaits_listing none)
take_reply e (delete_backup file) (resolved created) d = (d, awaits_listing none)
take_reply e (download_backup file) (resolved created) d =
    (toast (said_of_file e (lit "backup.downloaded") file) ok d, released)
take_reply e call (resolved created) d = (d, closing call)

unfoldable pub pull : Around → Option StateSnapshot → Desk → Desk
unfolding sync_state
pull e reply d =
    let (stores, landed) = sync_state e.outside reply d.stores in record d { stores = stores }

unfoldable pub release : Text → Desk → Desk
unfolding end_submit
release key d = record d { stores = record (d.stores) { task = end_submit key d.stores.task } }

-- The button is released when nothing more is awaited.
abbrev pub close : Text → Desk → Awaits → Desk
close key d released = release key d
close key d _ = d

-- A call's reply comes.
unfoldable pub settle_reply : Around → Sent → Reply → Desk → Desk × Awaits
unfolding take_reply release
settle_reply e s reply d =
    let (replied, next) = take_reply e s.call reply d in (close s.key replied next, next)

-- The listing of the backups comes.
unfoldable pub settle_listing : Around → Sent → Option Text → Listing → Desk → Desk × Awaits
unfolding refresh_then told release
settle_listing e s created listing d =
    (close s.key (refresh_then listing (told e s.call created) d) (closing s.call), closing s.call)

-- The reply of `getState` comes, nothing when that fails.
unfoldable pub settle_snapshot : Around → Sent → Option StateSnapshot → Desk → Desk × Awaits
unfolding pull release
settle_snapshot e s snapshot d = (release s.key (pull e snapshot d), released)
