-- ===== src/App/Landing.antt =====
-- What the state store says of a service after a snapshot or an event has landed.
use phpo.Base.{
  ◌≡◌, refl, ap, ◌↔◌, Bool, true, false, not, ◌||◌, ◌&&◌, lit, Bool-cases, inl, inr, some, List, [],
  ◌∷◌, ◌++◌, Text, str_eq, eq_iff, includes, filter, or_else, if◌then◌else◌, arith,
}
use phpo.Task.Records.{lookup}
use phpo.App.{
  ServiceKind, kind_eq, StateSnapshot, AppState, is_service_running, apply_snapshot, remove_first,
  set_service_running,
}

pub includes-filter :
    (p : Text → Bool) (x : Text) (xs : List Text)
    → includes (filter p xs) x ≡ (if includes xs x then p x else false)
unfolding includes
includes-filter p x [] = refl
includes-filter p x (y ∷ ys) = elim (Bool-cases (str_eq y x)) [
  | inl same ↦ let e = (eq_iff y x).0 same in ground (arith, includes-filter p x ys, ap p e)
  | inr other ↦ ground (arith, includes-filter p x ys)
]

-- After a snapshot an installed version runs exactly when the snapshot lists it as running.
pub is_service_running-apply_snapshot :
    (s : StateSnapshot) (a : AppState) (kind : ServiceKind) (version : Text)
    → includes ((apply_snapshot s a).installed kind) version ≡ true
    → is_service_running (apply_snapshot s a) kind version
      ≡ includes (or_else (s.running kind) []) version
unfolding is_service_running apply_snapshot
is_service_running-apply_snapshot s a kind version h = ground (
  arith,
  includes-filter (λ v. not (includes (or_else (s.running kind) []) v)) version
      (or_else (s.installed kind) []),
)

-- A snapshot that reports on both directories replaces whatever an earlier one had landed.
pub apply_snapshot_last :
    (s t : StateSnapshot) (a : AppState) (home www : Bool)
    → lookup (lit "PHPO_HOME") s.dir_ready ≡ some home
    → lookup (lit "WWW_ROOT") s.dir_ready ≡ some www
    → apply_snapshot s (apply_snapshot t a) ≡ apply_snapshot s a
unfolding apply_snapshot
apply_snapshot_last s t a home www h w = ground (arith, h, w)

includes-append :
    (xs ys : List Text) (x : Text) → includes (xs ++ ys) x ≡ (includes xs x || includes ys x)
unfolding includes
includes-append [] ys x = refl
includes-append (z ∷ xs) ys x = ground (arith, includes-append xs ys x)

-- No version is listed twice.
abbrev pub IsOnce : List Text → Type 0
IsOnce [] = Unit
IsOnce (x ∷ xs) = (includes xs x ≡ false) × IsOnce xs

includes-remove_first :
    (v x : Text) (xs : List Text)
    → IsOnce xs
    → includes (remove_first v xs) x ≡ (if str_eq v x then false else includes xs x)
unfolding includes remove_first
includes-remove_first v x [] h = ground arith
includes-remove_first v x (y ∷ ys) (n, h) =
    ground (arith, eq_iff y v, eq_iff y x, eq_iff v x, includes-remove_first v x ys h)

kind_eq_iff : (k l : ServiceKind) → (kind_eq k l ≡ true) ↔ (k ≡ l)
kind_eq_iff k l = ground arith

-- A `service:changed` event decides the state of its own service and of no other.
pub is_service_running-set_service_running :
    (kind k : ServiceKind) (version v : Text) (running : Bool) (a : AppState)
    → IsOnce (a.stopped kind)
    → is_service_running (set_service_running kind version running a) k v
      ≡ (if kind_eq k kind && str_eq version v then running else is_service_running a k v)
unfolding is_service_running set_service_running includes
is_service_running-set_service_running kind k version v running a once = ground (
  arith,
  kind_eq_iff k kind,
  eq_iff version v,
  includes-append (a.stopped kind) (version ∷ []) v,
  includes-remove_first version v (a.stopped kind) once,
)
