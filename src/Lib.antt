-- ===== src/Lib.antt =====
-- Verification of the frontend of phpo, a desktop program that runs PHP sites with their services in
-- containers. The frontend (frontend/src, TypeScript) keeps the state that the interface shows; the Go
-- backend decides everything, and reports it by snapshots, events and a ledger of past tasks. What the
-- backend, the browser and the libraries return is an argument of the definitions here.
--
-- The parts, and the files that model them:
--   Base          texts (lists of UTF-16 code units), lists and options over the native numbers,
--                 regular expressions by derivatives; JavaScript's includes, startsWith, split and
--                 join.
--   Task          frontend/src/stores/taskStore.ts. Task.antt has its types and the store as a
--                 record. Task/Records is the record pool (find, trim, newRecord), Task/Live the
--                 entry points for snapshots and events (ensureLive, syncBoard, appendLog,
--                 setProgress, finish, eventLine), Task/View what the drawer shows (queue,
--                 visibleLines, progress), Task/Busy the counters of isBusy, Task/History
--                 loadHistory and clearAll, Task/Demo the replay without a backend (start, play,
--                 cancel), Task/Trace histories of calls and of the replay's ticks. The other files below
--                 Task hold proofs.
--   App           frontend/src/stores/appState.ts and frontend/src/types/index.ts: the state store,
--                 applySnapshot, setServiceRunning, setDocker; App/Landing holds proofs.
--   Preflight     frontend/src/composables/usePreflight.ts: Preflight/Validate the checks of single
--                 inputs, Preflight/Ports the checks of ports, Preflight/Rules and
--                 Preflight/SiteRules the branches of `preflight`, Preflight/Check the whole
--                 function; Advance and Gates hold proofs.
--   Paths         frontend/src/utils/path.ts; Paths/RoundTrip holds proofs.
--   Sync          frontend/src/composables/useStateSync.ts: Sync/Notes the lines that events leave
--                 in the log (with humanSize of frontend/src/composables/useCleanup.ts), Sync/Land
--                 the landing of events and the pulls of a snapshot; Sync/Landing holds proofs.
--   Cache         frontend/src/stores/cacheStore.ts, and the events and the pull of
--                 frontend/src/composables/useCache.ts; Cache/Laws holds proofs.
--   Layout        frontend/src/stores/layoutStore.ts and frontend/src/constants/layout.ts;
--                 Layout/Within holds proofs.
--   Updater       frontend/src/stores/updaterStore.ts; Updater/Rounds holds proofs.
--   Catalog       frontend/src/constants/ext.ts: the PHP extensions on offer; Catalog/Offered holds
--                 proofs.
--   Mounts        frontend/src/constants/mounts.ts.
--   Format        frontend/src/utils/format.ts, without suggestPortFor; Format/Order holds proofs.
--   Messages      the texts of the interface: Messages/Language is frontend/src/composables/useI18n.ts
--                 (initialLocale, setLocale, t, te), Messages/Shapes, Signals1 to Signals3 and Table
--                 are frontend/src/utils/errShapes.ts (SIGNALS, compile, matchShape), Messages/Render
--                 is frontend/src/utils/msgText.ts, backendMsg.ts and taskLabel.ts of the same
--                 directory; Matching, Priority, Filling, Rounds, Fallback and Lines hold
--                 proofs.
--   Desk          what a click does: Desk/Services, Sites and Backups are the entries of
--                 frontend/src/composables/useModals.ts with usePortSuggest.ts and usePhpSwitch.ts,
--                 Desk/Confirming the callbacks of the dialogs, Desk/Submit the writes of useTask.ts
--                 up to the call and from its reply on, Desk/Clicks all of it as one function. The
--                 record Desk has the stores, the open dialog (frontend/src/stores/modalStore.ts),
--                 the toasts (useToast.ts) and the calls that were made. Sending, Clicking, Cleared,
--                 Checked, Batches and Released hold proofs.
--   Prefs         frontend/src/stores/prefsStore.ts; Prefs/Tray holds proofs.
--   Cleanup       frontend/src/stores/cleanupStore.ts and frontend/src/composables/useCleanup.ts (without
--                 humanSize); Cleanup/Settled holds proofs.
--   Tests         runs and instances at concrete inputs.
--
-- State is passed explicitly: an operation takes the store and returns the next one. A component's reads
-- of its surroundings (whether there is a backend, the queue of the last snapshot, the clock, Date.parse)
-- are the record Context. An operation that awaits the backend is split at the await: clearAll is
-- clear_keep and clear_pending before, clear_finish after; pull of the cache is begin_pull and end_pull;
-- clean of the cleanup panel is begin_clean and one function for each of its four replies; what the code of
-- a write does from its reply on is settle_reply, settle_listing and settle_snapshot. purgeCache, restore
-- and clearExpired of the cleanup panel are one step from their first reply on.
--
-- A callback is data: a danger dialog holds a Confirm, which `confirm` runs, and a call of the backend is
-- a value that `send` records; `settle_reply` does what the code does when its reply comes, whatever the
-- reply is. The order of replies, clicks and events is free: the relation Desk/Released.History takes any.
--
-- An event goes through Sync: land_event applies it to the state store and to the task store, in the
-- order of the code, and the task store reads the queue that the state store has at that moment.
--
-- Numbers. Ports, steps, totals and times are natural numbers. A duration is an option, none for what is
-- not finite. Times before 1970 are 0. Math.round of a quotient is the floor of the quotient plus one
-- half, exactly: where the code's floats fall just below one half, as 23 of 40 steps do (57 percent), the
-- model is one percent above them. The layout's scale is in thousandths.
--
-- Loops. All recursion is structural. first_free counts the rounds of the loop in findNextAvailablePort;
-- the rounds given are the ports of the range, so that none is missed. play takes the readings of the
-- clock, one for each time that the timer fires. retry takes one reply for each further attempt.
--
-- msgText goes round as long as values hold known sentences: Messages/Render bounds the rounds by its first
-- argument and has no result without enough.
--
-- A regular expression of a known sentence is its literals and placeholders: capture tries the shortest
-- text first, as the lazy groups do.
--
-- The sentences of checks and of event lines are their message keys with the parameters that the code gives
-- them; those of dialogs and toasts are texts of the language at hand.
--
-- Not modelled: the Vue components and the router (rendering), the language packs (frontend/src/locales, a
-- parameter of the lookup), the Go backend and the bindings to it (frontend/src/api), and of frontend/src:
-- composables/useUpdater.ts, useDockerPreflight.ts, useZoom.ts, useResize.ts and useCmdPalette.ts, the actions
-- of useCache.ts, utils/vhost.ts, and the tables of texts in constants. buildScript of the task store, the
-- lines of the demo, is an argument of start.
pub mod Base
pub mod Task
pub mod App
pub mod Preflight
pub mod Paths
pub mod Sync
pub mod Cache
pub mod Layout
pub mod Updater
pub mod Catalog
pub mod Mounts
pub mod Format
pub mod Messages
pub mod Desk
pub mod Prefs
pub mod Cleanup
pub mod Tests
