-- ===== src/Sync/Notes.antt =====
-- The lines that events leave in the drawer's log: `eventNote` of
-- frontend/src/composables/useStateSync.ts, and `humanSize` of frontend/src/composables/useCleanup.ts.
use phpo.Base.{
  ℕ, ◌+◌, ◌*◌, ◌/◌, ◌%◌, ◌==◌, ltb, ◌||◌, Option, List, [], ◌∷◌, ◌++◌, map, Text, lit, str_eq,
  truthy, or_else, is_empty, decimal, if◌then◌else◌,
}
use phpo.Task.{LineType, Params}
use phpo.App.{ServiceKind, php, mysql, pgsql, redis, nginx, GapReason, ServiceGap}
use phpo.Sync.{
  Notice, cache_hit, cache_miss, cache_promote, cache_corrupted, cache_cleanup,
  cache_tempdir_cleared, docker_cleanup, docker_orphan_found, docker_state_drift, update_available,
  update_done, update_progress,
}

-- `n.toFixed(1)` of `bytes / unit`, exactly: tenths, rounded half up.
abbrev pub to_fixed_1 : ℕ → ℕ → Text
to_fixed_1 bytes unit =
    let tenths = (20 * bytes + unit) / (2 * unit) in
    decimal (tenths / 10) ++ (lit "." ++ decimal (tenths % 10))

-- The loop over the units above the bytes: `unit` is the number of bytes in the first of them.
unfoldable pub scale_size : List Text → ℕ → ℕ → Text
scale_size [] unit b = []
scale_size (u ∷ []) unit b = to_fixed_1 b unit ++ (lit " " ++ u)
scale_size (u ∷ (v ∷ us)) unit b =
    let bigger = scale_size (v ∷ us) (1024 * unit) b in
    if ltb b (1024 * unit) then to_fixed_1 b unit ++ (lit " " ++ u) else bigger

unfoldable pub human_size : ℕ → Text
unfolding scale_size
human_size b =
    if b == 0
    then lit "0 B"
    else if ltb b 1024
    then decimal b ++ lit " B"
    else scale_size (lit "KB" ∷ lit "MB" ∷ lit "GB" ∷ lit "TB" ∷ []) 1024 b

abbrev pub kind_text : ServiceKind → Text
kind_text php = lit "php"
kind_text mysql = lit "mysql"
kind_text pgsql = lit "pgsql"
kind_text redis = lit "redis"
kind_text nginx = lit "nginx"

-- `GAP_REASON_KEYS`.
abbrev pub gap_reason_key : GapReason → Text
gap_reason_key GapReason.container = lit "svc.gap.container"
gap_reason_key GapReason.image = lit "svc.gap.image"
gap_reason_key GapReason.extensions_image = lit "svc.gap.extensions_image"

-- What a drift is about, where it names no gap.
unfoldable pub drift_detail : Option Text → Option Text → Option Text → Text
drift_detail expected actual error =
    if truthy expected || truthy actual
    then or_else expected (lit "?") ++ (lit " → " ++ or_else actual (lit "?"))
    else or_else error []

unfoldable pub done_level : Text → LineType
done_level status =
    if str_eq status (lit "failed")
    then LineType.err
    else if str_eq status (lit "cancelled")
    then LineType.dim
    else LineType.ok

-- `t` is the translation of a message key with its parameters.
module _ (t : Text → Params → Text) where
  unfoldable pub gap_line : ServiceGap → LineType × Text
  gap_line g = (
    LineType.meta,
    t (lit "task.dockerGap") (
        (lit "kind", kind_text g.kind)
        ∷ (lit "version", g.version)
        ∷ (lit "reason", t (gap_reason_key g.reason) [])
        ∷ (lit "ref", g.ref)
        ∷ []),
  )

  -- The lines that an event leaves, in their order. The update's progress leaves none.
  unfoldable pub lines_of : Notice → List (LineType × Text)
  unfolding gap_line
  lines_of (cache_hit kind version source size) =
      (
        LineType.ok,
        t (lit "task.cacheHit") (
            (lit "kind", kind)
            ∷ (lit "version", version)
            ∷ (lit "source", source)
            ∷ (lit "size", human_size (or_else size 0))
            ∷ []),
      )
      ∷ []
  lines_of (cache_miss kind version action source) =
      (
        LineType.dim,
        (if truthy source
            then t (lit "task.cacheMissSource") (
                (lit "kind", kind)
                ∷ (lit "version", version)
                ∷ (lit "action", action)
                ∷ (lit "source", or_else source [])
                ∷ [])
            else t (lit "task.cacheMiss")
                ((lit "kind", kind) ∷ (lit "version", version) ∷ (lit "action", action) ∷ [])),
      )
      ∷ []
  lines_of (cache_promote kind version entries) =
      (
        LineType.ok,
        t (lit "task.cachePromote")
            ((lit "kind", kind) ∷ (lit "version", version) ∷ (lit "n", decimal entries) ∷ []),
      )
      ∷ []
  lines_of (cache_corrupted kind version) =
      (
        LineType.err,
        t (lit "task.cacheCorrupted") ((lit "kind", kind) ∷ (lit "version", version) ∷ []),
      )
      ∷ []
  lines_of (cache_cleanup mode freed_bytes) =
      (
        LineType.ok,
        t (lit "task.cacheCleanup")
            ((lit "mode", mode) ∷ (lit "size", human_size (or_else freed_bytes 0)) ∷ []),
      )
      ∷ []
  lines_of (cache_tempdir_cleared path reason) =
      (LineType.dim, t (lit "task.cacheTempdir") ((lit "path", path) ∷ (lit "reason", reason) ∷ []))
      ∷ []
  lines_of (docker_cleanup stage resource action) =
      (
        LineType.dim,
        t (lit "task.dockerCleanup")
            ((lit "stage", stage) ∷ (lit "resource", resource) ∷ (lit "action", action) ∷ []),
      )
      ∷ []
  lines_of (docker_orphan_found resources) =
      (LineType.meta, t (lit "task.dockerOrphan") ((lit "n", decimal resources) ∷ [])) ∷ []
  lines_of (docker_state_drift expected actual error gaps) =
      if is_empty (or_else gaps [])
      then (
        LineType.meta,
        t (lit "task.dockerDrift") ((lit "detail", drift_detail expected actual error) ∷ []),
      )
        ∷ []
      else map gap_line (or_else gaps [])
  lines_of (update_available version size) =
      (
        LineType.meta,
        t (lit "task.updateAvailable")
            ((lit "version", version) ∷ (lit "size", human_size (or_else size 0)) ∷ []),
      )
      ∷ []
  lines_of (update_done status version error) =
      (
        done_level status,
        t (lit "task.updateDone") (
            (lit "status", status)
            ∷ (lit "detail", (if truthy version then or_else version [] else or_else error []))
            ∷ []),
      )
      ∷ []
  lines_of update_progress = []
