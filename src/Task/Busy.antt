-- ===== src/Task/Busy.antt =====
-- The in-flight counters of taskStore.ts: which button is waiting for the write that it started.
use phpo.Base.{
  ℕ, ◌+◌, ◌-◌, ltb, Bool, true, false, not, ◌&&◌, List, [], ◌∷◌, Text, lit, str_eq, is_given,
  or_else, any, filter, join, if◌then◌else◌,
}
use phpo.Task.{TaskMeta, TaskStore, is_running_status}
use phpo.Task.Records.{lookup, insert, delete}

-- The target of a write: its type, kind, version, domain and file, those that are given.
unfoldable pub busy_key_of : TaskMeta → Text
unfolding join
busy_key_of m = join (lit ":") (
    filter is_given (
      m.type
      ∷ or_else m.kind []
      ∷ or_else m.version []
      ∷ or_else m.domain []
      ∷ or_else m.file []
      ∷ []))

-- `inflight.value[key] || 0`.
unfoldable pub count_of : Text → List (Text × ℕ) → ℕ
unfolding lookup
count_of key m = or_else (lookup key m) 0

unfoldable pub is_busy_key : Text → TaskStore → Bool
is_busy_key key s =
    if not (is_given key)
    then false
    else if ltb 0 (count_of key s.inflight)
    then true
    else any (λ r. not r.live && is_running_status r.status && str_eq (busy_key_of r.meta) key)
        s.records

unfoldable pub begin_submit : Text → TaskStore → TaskStore
begin_submit key s =
    if is_given key
    then record s { inflight = insert key (count_of key s.inflight + 1) s.inflight }
    else s

-- The source's `n - 1` is below 1 for a count of 0 and of 1 alike.
unfoldable pub end_submit : Text → TaskStore → TaskStore
end_submit key s =
    if is_given key
    then record s {
      inflight =
          if ltb 1 (count_of key s.inflight)
          then insert key (count_of key s.inflight - 1) s.inflight
          else delete key s.inflight;
    }
    else s
