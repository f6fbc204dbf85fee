-- ===== src/Preflight.antt =====
-- The instant checks before a write (frontend/src/composables/usePreflight.ts): the messages, the
-- results, and the state that the checks read. Validate holds the checks of single inputs, Ports those
-- of ports, Rules and SiteRules the branches of `preflight`, and Check the whole function.
pub mod Validate
pub mod Ports
pub mod Rules
pub mod SiteRules
pub mod Check
pub mod Advance
pub mod Gates
use phpo.Base.{
  ℕ, Bool, true, false, Option, none, some, List, [], ◌∷◌, ◌++◌, Text, is_empty, if◌then◌else◌,
}
use phpo.App.{ServiceKind, AppState}

-- Who uses a port: a data service or a site.
pub data Owner : Type 0 where
  service : ServiceKind → Text → Owner
  site : Text → Owner

-- The translated sentences, as their message keys with the parameters that the code gives them.
pub data PfMsg : Type 0 where
  home_not_ready nginx_single port_invalid root_empty path_traversal svc_missing : PfMsg
  config_empty nginx_needed file_missing nginx_not_serving_err registry_host_empty : PfMsg
  registry_host_empty_list : PfMsg
  -- without and with the value that is at fault
  version_empty domain_empty : PfMsg
  version_invalid domain_invalid domain_exists root_outside_www root_duplicated : Text → PfMsg
  backup_missing site_missing ext_invalid ext_type_got ext_import_php_only : Text → PfMsg
  registry_host_space registry_host_path registry_host_invalid not_installed_php : Text → PfMsg
  php_pending vhost_php_pending : Option Text → PfMsg
  version_dup not_installed is_running not_running data_dir_pending stop_data_service :
      ServiceKind → Text → PfMsg
  offline_missing : Text → Text → PfMsg
  port_in_use port_degrade : ℕ → Option Owner → PfMsg
  port_advance : ℕ → ℕ → PfMsg
  nginx_not_running_add nginx_not_serving_edit : Bool → PfMsg
  uninstall_php_sites stop_php_sites : Text → List Text → PfMsg
  stop_nginx_sites : ℕ → PfMsg

-- What a branch pushes to `errors` and `warnings`, and `adjusted.port`.
pub record Findings : Type 0 where
  pub errors : List PfMsg
  pub warnings : List PfMsg
  pub adjusted_port : Option ℕ

pub record PreflightResult : Type 0 where
  pub ok : Bool
  pub errors : List PfMsg
  pub warnings : List PfMsg
  pub adjusted_port : Option ℕ

abbrev pub clean : Findings
clean = record { errors = []; warnings = []; adjusted_port = none }

abbrev pub error : PfMsg → Findings
error m = record { errors = m ∷ []; warnings = []; adjusted_port = none }

abbrev pub warning : PfMsg → Findings
warning m = record { errors = []; warnings = m ∷ []; adjusted_port = none }

-- What a branch pushes after what it has pushed.
infixl 30 ◌also◌
abbrev pub ◌also◌ : Findings → Findings → Findings
f also g = record {
  errors = f.errors ++ g.errors;
  warnings = f.warnings ++ g.warnings;
  adjusted_port = elim g.adjusted_port [ some p ↦ some p | none ↦ f.adjusted_port ];
}

abbrev pub when : Bool → Findings → Findings
when b f = if b then f else clean

-- The stores that `preflight` reads: the state, and the kinds and versions of the cache's entries.
pub record World : Type 0 where
  pub app : AppState
  pub cache_entries : List (Text × Text)
  pub has_backend : Bool

-- The outcome of a check of one input.
pub data Checked {ℓ} (A : Type ℓ) : Type ℓ where
  good : A → Checked A
  bad : PfMsg → Checked A
