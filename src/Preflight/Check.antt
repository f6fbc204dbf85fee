-- ===== src/Preflight/Check.antt =====
-- `preflight` of usePreflight.ts: the home gate, the branch of the action, and the verdict.
use phpo.Base.{Bool, true, false, not, ◌&&◌, Option, List, Text, is_empty}
use phpo.App.{home_ready}
use phpo.Preflight.{Findings, PreflightResult, World, clean, error, ◌also◌, when, home_not_ready}
use phpo.Preflight.Rules
use phpo.Preflight.SiteRules

-- The actions that `preflight` knows, each with the fields of its context that are read; `backup` has
-- no branch of its own.
pub data Action : Type 0 where
  install : (kind version : Text) (port extensions : Option Text) → Action
  uninstall service_stop service_start : (kind version : Text) → Action
  update_config : (kind version field : Text) (new_value : Option Text) → Action
  site_add : (domain : Text) (port php root : Option Text) → Action
  site_remove rewrite : (domain : Text) → Action
  site_port : (domain : Text) (new_value : Option Text) → Action
  site_vhost : (domain : Text) (content php : Option Text) → Action
  php_switch : (domain new_php : Text) → Action
  extensions : (version : Text) (final_exts : List Text) → Action
  service_config : (kind version : Text) (files : List Text) → Action
  backup : Action
  restore backup_delete : (file : Text) → Action
  offline_prune : (svc ver : Text) → Action
  root_set : (field kind version new_value : Text) → Action
  cache_import : (kind version field new_value : Text) → Action
  docker_source_set : (sources : List Text) → Action

-- `NEEDS_HOME.has(action)`.
unfoldable pub needs_home : Action → Bool
needs_home (php_switch domain new_php) = false
needs_home (backup_delete file) = false
needs_home _ = true

-- The `switch` of `preflight`.
unfoldable pub check_action : World → Action → Findings
check_action w (install k v port exts) = Rules.install w k v port exts
check_action w (uninstall k v) = Rules.uninstall w k v
check_action w (service_stop k v) = Rules.service_stop w k v
check_action w (service_start k v) = Rules.service_start w k v
check_action w (update_config k v field value) = Rules.update_config w k v field value
check_action w (site_add domain port php root) = SiteRules.site_add w domain port php root
check_action w (site_remove domain) = SiteRules.site_remove w domain
check_action w (rewrite domain) = SiteRules.rewrite w domain
check_action w (site_port domain value) = SiteRules.site_port w domain value
check_action w (site_vhost domain content php) = SiteRules.site_vhost w domain content php
check_action w (php_switch domain php) = SiteRules.php_switch w domain php
check_action w (extensions v exts) = Rules.extensions w v exts
check_action w (service_config k v files) = Rules.service_config w k v files
check_action w backup = clean
check_action w (restore file) = Rules.restore w file
check_action w (backup_delete file) = Rules.restore w file
check_action w (offline_prune svc ver) = Rules.offline_prune w svc ver
check_action w (root_set field k v value) = Rules.root_set w field k v value
check_action w (cache_import k v field value) = Rules.cache_import w k v field value
check_action w (docker_source_set sources) = Rules.docker_source_set w sources

unfoldable pub preflight : World → Action → PreflightResult
unfolding needs_home check_action home_ready
preflight w action =
    let f =
      when (needs_home action && not (home_ready w.app)) (error home_not_ready)
      also check_action w action in
    record {
      ok = is_empty f.errors;
      errors = f.errors;
      warnings = f.warnings;
      adjusted_port = f.adjusted_port;
    }
