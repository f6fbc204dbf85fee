-- ===== src/Desk.antt =====
-- What a click does: the dialogs, the toasts, the writes that are sent to the backend and what happens
-- when they settle (frontend/src/composables/useModals.ts, useTask.ts, usePortSuggest.ts, usePhpSwitch.ts
-- and useToast.ts, frontend/src/stores/modalStore.ts). The callbacks are data: a dialog holds what its
-- confirmation will do, a pending call what follows its reply. Submit holds the writes and their settling,
-- Services the actions on services, Sites those on sites, Backups those on backups, Confirming what a
-- confirmed dialog does, and Clicks all of it as one function; the other files hold proofs.
pub mod Submit
pub mod Services
pub mod Sites
pub mod Backups
pub mod Confirming
pub mod Clicks
pub mod Sending
pub mod Clicking
pub mod Cleared
pub mod Checked
pub mod Batches
pub mod Released
use phpo.Base.{
  ℕ, ◌+◌, ◌==◌, Bool, true, false, Option, none, some, List, [], ◌∷◌, ◌++◌, Text, if◌then◌else◌,
}
use phpo.Task.{TaskMeta, TaskLine}
use phpo.App.{ServiceKind, Backup}
use phpo.Sync.{Stores, Outside}
use phpo.Preflight.{PfMsg, World}

pub data ToastKind : Type 0 where
  info ok err : ToastKind

-- A sentence, the errors of a check, or a rejected call's error, which `backendMsg` puts into words.
pub data ToastText : Type 0 where
  said : Text → ToastText
  errors : List PfMsg → ToastText
  failure : Text → ToastText

pub record ToastItem : Type 0 where
  pub id : ℕ
  pub msg : ToastText
  pub kind : ToastKind

pub record Toasts : Type 0 where
  pub items : List ToastItem
  pub seq : ℕ

-- A row that a batch takes.
pub record Row : Type 0 where
  pub kind : ServiceKind
  pub version : Text

pub data BatchAction : Type 0 where
  service_start service_stop uninstall : BatchAction

-- The calls of the bindings that these files make.
pub data Call : Type 0 where
  svc_start svc_stop svc_remove svc_reinstall : (kind : ServiceKind) (version : Text) → Call
  remove_site : (domain : Text) → Call
  create_backup : Call
  restore_backup delete_backup download_backup : (file : Text) → Call
  set_site_port : (domain : Text) (port : ℕ) → Call
  switch_site_php : (domain php : Text) → Call

-- A call that was made, and the key of the button that waits for it; a call that no button waits for
-- has the empty key, which the counters leave out.
pub record Sent : Type 0 where
  pub call : Call
  pub key : Text

-- The `onConfirm` of a danger dialog.
pub data Confirm : Type 0 where
  uninstall_service rebuild : (kind : ServiceKind) (version : Text) → Confirm
  batch : (action : BatchAction) (plan : List Row) (skipped : ℕ) → Confirm
  batch_remove : (rows : List Row) → Confirm
  lifecycle : (action : BatchAction) (kind : ServiceKind) (version label : Text) → Confirm
  site_remove : (domain : Text) → Confirm
  backup_delete restore : (file : Text) → Confirm
  backup : (label : Text) → Confirm
  site_port : (domain : Text) (port : ℕ) → Confirm
  guarded : (args : List Text) (label : Option Text) (meta : Option TaskMeta) → Confirm

-- A line of a danger dialog: a check's warning, or a sentence, which may say that something stays.
pub data Warning : Type 0 where
  check : PfMsg → Warning
  text : Text → (keep : Bool) → Warning

pub record Danger : Type 0 where
  pub title : Text
  pub description : Option Text
  pub warnings : List Warning
  pub checkbox : Option Text
  pub confirm_label : Text
  pub on_confirm : Confirm

pub data Dialog : Type 0 where
  install_modal : (kind : ServiceKind) → Dialog
  site_add_modal theme_picker_modal update_modal cleanup_modal trash_viewer : Dialog
  rewrite_modal site_config_modal : (domain : Text) → Dialog
  config_modal : (kind : ServiceKind) (version : Text) → Dialog
  php_extensions_modal : (version : Text) → Dialog
  home_setup_wizard : (locked : Bool) → Dialog
  danger_confirm : Danger → Dialog

pub record Desk : Type 0 where
  pub stores : Stores
  pub cache_entries : List (Text × Text)
  pub dialog : Option Dialog
  pub toasts : Toasts
  pub sent : List Sent

-- What a click reads besides: the host and the clock, the language's texts, the demo's script and the
-- handle of the timer that its replay sets.
pub record Around : Type 0 where
  pub outside : Outside
  pub texts : Text → Option Text
  pub script : List Text → TaskMeta → List TaskLine
  pub timer : ℕ

unfoldable pub toast : ToastText → ToastKind → Desk → Desk
toast msg kind d =
    let seq = d.toasts.seq + 1 in
    record d {
      toasts = record {
        items = d.toasts.items ++ record { id = seq; msg = msg; kind = kind } ∷ [];
        seq = seq;
      };
    }

-- A toast's timeout: the first toast with its number goes.
unfoldable pub drop_toast : ℕ → List ToastItem → List ToastItem
drop_toast id [] = []
drop_toast id (x ∷ xs) = if x.id == id then xs else x ∷ drop_toast id xs

unfoldable pub expire : ℕ → Desk → Desk
unfolding drop_toast
expire id d = record d {
  toasts = record { items = drop_toast id d.toasts.items; seq = d.toasts.seq };
}

-- `modal.open` and `modal.close`.
unfoldable pub open_modal : Dialog → Desk → Desk
open_modal x d = record d { dialog = some x }

unfoldable pub close_modal : Desk → Desk
close_modal d = record d { dialog = none }

-- What `preflight` reads.
abbrev pub world_of : Around → Desk → World
world_of e d = record {
  app = d.stores.app;
  cache_entries = d.cache_entries;
  has_backend = e.outside.has_backend;
}
