-- ===== src/Task/Records.antt =====
-- The record pool of taskStore.ts: `find`, the writes through a found record, `trim`, `newRecord`.
use phpo.Base.{
  ℕ, ltb, Bool, false, ◌||◌, Option, none, some, List, [], ◌∷◌, reverse, Text, str_eq, length,
  is_given, or_else, if◌then◌else◌,
}
use phpo.Task.{TaskStatus, TaskRecord, is_running_status}

-- `records.value.find((r) => r.id === id)`.
unfoldable pub find_record : Text → List TaskRecord → Option TaskRecord
find_record id [] = none
find_record id (r ∷ rs) = if str_eq r.id id then some r else find_record id rs

-- A write to the fields of the record that `find` returns.
unfoldable pub modify : Text → (TaskRecord → TaskRecord) → List TaskRecord → List TaskRecord
modify id f [] = []
modify id f (r ∷ rs) = if str_eq r.id id then f r ∷ rs else r ∷ modify id f rs

abbrev pub records_max : ℕ
records_max = 50

-- The record being looked at, or one that still runs, is never cut.
abbrev pub is_kept : Text → TaskRecord → Bool
is_kept active r = str_eq r.id active || is_running_status r.status

-- The loop of `trim`, on the pool with its oldest record first.
unfoldable pub trim_oldest : Text → List TaskRecord → List TaskRecord
trim_oldest active [] = []
trim_oldest active (last ∷ rest) =
    if ltb records_max (length (last ∷ rest))
    then (if is_kept active last then last ∷ rest else trim_oldest active rest)
    else last ∷ rest

unfoldable pub trim : Text → List TaskRecord → List TaskRecord
trim active rs = reverse (trim_oldest active (reverse rs))

-- A map keyed by texts: `get`, `set` and `delete`.
module _ {ℓ} {V : Type ℓ} where
  unfoldable pub lookup : Text → List (Text × V) → Option V
  lookup k [] = none
  lookup k ((j, v) ∷ m) = if str_eq j k then some v else lookup k m

  unfoldable pub insert : Text → V → List (Text × V) → List (Text × V)
  insert k v [] = (k, v) ∷ []
  insert k v ((j, w) ∷ m) = if str_eq j k then (j, v) ∷ m else (j, w) ∷ insert k v m

  unfoldable pub delete : Text → List (Text × V) → List (Text × V)
  delete k [] = []
  delete k ((j, w) ∷ m) = if str_eq j k then delete k m else (j, w) ∷ delete k m

-- `label ? cmdByLabel.get(label) ?? [] : []`.
unfoldable pub args_of : List (Text × List Text) → Text → List Text
unfolding lookup
args_of cmds label = if is_given label then or_else (lookup label cmds) [] else []

unfoldable pub new_record : List (Text × List Text) → ℕ → Text → Text → Text → Bool → TaskRecord
new_record cmds now id label type live = record {
  id = id;
  args = args_of cmds label;
  label = if is_given label then label else id;
  label_code = none;
  label_params = none;
  meta = record { type = type; kind = none; version = none; domain = none; file = none };
  lines = [];
  status = TaskStatus.running;
  cursor = 0;
  started_at = now;
  ended_at = none;
  cancelled = false;
  abort_reason = none;
  timer = none;
  live = live;
  step = 0;
  total = 0;
  last_err = none;
  error_code = none;
  error_params = none;
  last_err_code = none;
  last_err_params = none;
  error = none;
  duration_ms = none;
}
