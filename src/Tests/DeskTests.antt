-- ===== src/Tests/DeskTests.antt =====
-- Clicks, calls and their replies at concrete inputs.
use phpo.Base.{◌≡◌, refl, true, false, none, List, [], ◌∷◌, includes, lit}
use phpo.Task.Trace.{empty_store}
use phpo.Task.Busy.{count_of}
use phpo.App.{mysql, php, redis, is_service_running}
use phpo.Preflight.Rules.{service_stop}
use phpo.Desk.{Desk, Around, Row, BatchAction, Sent, svc_stop, svc_reinstall, world_of}
use phpo.Desk.Submit.{
  rejected, Awaits, awaits_reply, awaits_snapshot, take_reply, settle_reply, settle_snapshot,
}
use phpo.Desk.Services.{enqueue_batch}
use phpo.Desk.Clicks.{stop, rebuild, confirmed, click}
use phpo.Desk.Sending.{busy_count}
use phpo.Desk.Released.{History, begun, clicked, replied, pulled, History-counts}
use phpo.Desk.Batches.{Queues, enqueue_batch_lem}
use phpo.Desk.Cleared.{Sends}
use phpo.Desk.Checked.{click-Sends}
use phpo.Tests.AppTests.{host}

abbrev around : Around
around = record {
  outside = record { has_backend = true; now = 5; parse_date = λ s. none };
  texts = λ key. none;
  script = λ args meta. [];
  timer = 1;
}

abbrev desk : Desk
desk = record {
  stores = record { app = host; task = empty_store; pulls = false };
  cache_entries = [];
  dialog = none;
  toasts = record { items = []; seq = 0 };
  sent = [];
}

abbrev stop_mysql : Sent
stop_mysql = record { call = svc_stop mysql (lit "8.0"); key = lit "service-stop:mysql:8.0" }

-- Stopping a data service asks first, and the confirmation sends the call.
abbrev asked : Desk
asked = click around (stop mysql (lit "8.0")) desk

abbrev stopping : Desk
stopping = click around confirmed asked

stopping_sent : stopping.sent ≡ stop_mysql ∷ []
unfolding click service_stop includes is_service_running
stopping_sent = refl

stopping-History : History desk stopping ((stop_mysql, awaits_reply) ∷ [])
unfolding click service_stop includes is_service_running
stopping-History =
    clicked asked [] around confirmed (clicked desk [] around (stop mysql (lit "8.0")) (begun))

abbrev failed : Desk × Awaits
failed = settle_reply around stop_mysql (rejected (lit "no docker")) stopping

failed-History : History desk failed.0 ((stop_mysql, awaits_snapshot) ∷ [])
unfolding settle_reply take_reply
failed-History =
    replied stopping [] [] around stop_mysql (rejected (lit "no docker")) stopping-History

no_button_waits : busy_count stop_mysql.key desk ≡ 0
unfolding count_of
no_button_waits = refl

-- The call has failed, and no snapshot can be had: the button is released all the same.
History-counts_example :
    busy_count stop_mysql.key (settle_snapshot around stop_mysql none failed.0).0 ≡ 0
unfolding settle_snapshot
History-counts_example =
    History-counts desk (settle_snapshot around stop_mysql none failed.0).0 [] stop_mysql.key refl
      no_button_waits (pulled failed.0 [] [] around stop_mysql none failed-History)

-- MySQL is to be rebuilt: the dialog asks, and its confirmation sends the call.
abbrev rebuilding : Desk
rebuilding = click around (rebuild mysql (lit "8.0")) desk

rebuilding_sent :
    (click around confirmed rebuilding).sent
    ≡ record { call = svc_reinstall mysql (lit "8.0"); key = lit "update-config:mysql:8.0" } ∷ []
unfolding click phpo.Preflight.Rules.update_config includes
rebuilding_sent = refl

click-Sends_example :
    Sends (world_of around rebuilding) rebuilding (click around confirmed rebuilding)
unfolding click
click-Sends_example = click-Sends around confirmed rebuilding refl

abbrev rows : List Row
rows =
    record { kind = mysql; version = lit "8.0" }
    ∷ record { kind = redis; version = lit "7" }
    ∷ record { kind = php; version = lit "8.3" }
    ∷ []

enqueue_batch_lem_example :
    Queues around BatchAction.service_stop desk refl rows 0 desk
      (enqueue_batch around BatchAction.service_stop rows 0 desk)
enqueue_batch_lem_example = enqueue_batch_lem around BatchAction.service_stop rows desk refl
