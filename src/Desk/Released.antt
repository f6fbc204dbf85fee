-- ===== src/Desk/Released.antt =====
-- The replies of calls (frontend/src/composables/useTask.ts) and the counters of the buttons: histories, and
-- proofs about them.
use phpo.Base.{
  ℕ, suc, map, ◌+◌, ◌-◌, ◌≡◌, refl, sym, ap, ◌∙◌, true, Option, none, some, List, [], ◌∷◌, ◌++◌,
  Text, is_given, str_eq, length, drop, if◌then◌else◌, arith,
}
use phpo.Task.{TaskStore, Params}
use phpo.Task.Busy.{count_of, end_submit}
use phpo.Task.Counting.{count_of-end_submit}
use phpo.App.{StateSnapshot}
use phpo.Sync.{Event, Outside}
use phpo.Sync.Land.{land_event, sync_state}
use phpo.Sync.Inflight.{land_snapshot-inflight, land_event-inflight}
use phpo.Desk.{
  Call, svc_start, svc_stop, svc_remove, svc_reinstall, remove_site, create_backup, restore_backup,
  delete_backup, download_backup, set_site_port, switch_site_php, Sent, Desk, Around, toast, expire,
}
use phpo.Desk.Submit.{
  Listing, not_listed, listed, Reply, rejected, resolved, Awaits, awaits_reply, awaits_listing,
  awaits_snapshot, released, refresh_then, toast_created, told, closing, take_reply, pull, release,
  close, settle_reply, settle_listing, settle_snapshot,
}
use phpo.Desk.Clicks.{Click, click}
use phpo.Desk.Sending.{waiting, busy_count, Counts, counts}
use phpo.Desk.Clicking.{click-Counts}

-- The task store is the same.
abbrev Keeps : (Desk → Desk) → Type 0
Keeps f = (d : Desk) → (f d).stores.task ≡ d.stores.task

refresh_then-Keeps : (l : Listing) (k : Desk → Desk) → Keeps k → Keeps (refresh_then l k)
unfolding refresh_then toast
refresh_then-Keeps (not_listed error) k h d = refl
refresh_then-Keeps (listed none) k h d = h d
refresh_then-Keeps (listed (some list)) k h d = h _

toast_created-Keeps : (e : Around) (created : Option Text) → Keeps (toast_created e created)
unfolding toast
toast_created-Keeps e none d = refl
toast_created-Keeps e (some file) d = refl

told-Keeps : (e : Around) (call : Call) (created : Option Text) → Keeps (told e call created)
unfolding told toast
told-Keeps e create_backup created d = toast_created-Keeps e created d
told-Keeps e (restore_backup file) created d = refl
told-Keeps e (delete_backup file) created d = refl
told-Keeps e (download_backup file) created d = refl
told-Keeps e (svc_start kind version) created d = refl
told-Keeps e (svc_stop kind version) created d = refl
told-Keeps e (svc_remove kind version) created d = refl
told-Keeps e (svc_reinstall kind version) created d = refl
told-Keeps e (remove_site domain) created d = refl
told-Keeps e (set_site_port domain port) created d = refl
told-Keeps e (switch_site_php domain php) created d = refl

take_reply-Keeps :
    (e : Around) (call : Call) (reply : Reply) → Keeps (λ d. (take_reply e call reply d).0)
unfolding take_reply toast
take_reply-Keeps e call (rejected error) d = refl
take_reply-Keeps e create_backup (resolved created) d = refl
take_reply-Keeps e (restore_backup file) (resolved created) d = refl
take_reply-Keeps e (delete_backup file) (resolved created) d = refl
take_reply-Keeps e (download_backup file) (resolved created) d = refl
take_reply-Keeps e (svc_start kind version) (resolved created) d = refl
take_reply-Keeps e (svc_stop kind version) (resolved created) d = refl
take_reply-Keeps e (svc_remove kind version) (resolved created) d = refl
take_reply-Keeps e (svc_reinstall kind version) (resolved created) d = refl
take_reply-Keeps e (remove_site domain) (resolved created) d = refl
take_reply-Keeps e (set_site_port domain port) (resolved created) d = refl
take_reply-Keeps e (switch_site_php domain php) (resolved created) d = refl

pull-inflight :
    (e : Around) (snapshot : Option StateSnapshot) (d : Desk)
    → (pull e snapshot d).stores.task.inflight ≡ d.stores.task.inflight
unfolding pull sync_state
pull-inflight e none d = refl
pull-inflight e (some snap) d = land_snapshot-inflight e.outside snap d.stores

count_of-end_any :
    (k j : Text) (s : TaskStore)
    → is_given j ≡ true
    → count_of j (end_submit k s).inflight ≡ count_of j s.inflight - (if str_eq k j then 1 else 0)
unfolding end_submit str_eq
count_of-end_any [] [] s g = cc
count_of-end_any [] (c ∷ j) s g = omega arith
count_of-end_any (b ∷ k) j s g = ground (arith, count_of-end_submit (b ∷ k) j s refl)

-- How many of the calls under way a button waits for.
abbrev pub awaited : Text → List (Sent × Awaits) → ℕ
awaited key [] = 0
awaited key (c ∷ cs) = if str_eq c.0.key key then suc (awaited key cs) else awaited key cs

-- A call that goes on, or is over.
abbrev pub remaining : Sent → Awaits → List (Sent × Awaits)
remaining s released = []
remaining s next = (s, next) ∷ []

-- Calls that have just been made.
abbrev pub just_made : List Sent → List (Sent × Awaits)
just_made ss = map (λ s. (s, awaits_reply)) ss

awaited-append :
    (key : Text) (xs ys : List (Sent × Awaits))
    → awaited key (xs ++ ys) ≡ awaited key xs + awaited key ys
awaited-append key [] ys = omega arith
awaited-append key (x ∷ xs) ys = ground (arith, awaited-append key xs ys)

awaited-just_made : (key : Text) (ss : List Sent) → awaited key (just_made ss) ≡ waiting key ss
awaited-just_made key [] = refl
awaited-just_made key (s ∷ ss) = ground (arith, awaited-just_made key ss)

-- One step of a call that is under way: the counters go on agreeing with the calls.
module _ (key : Text) (g : is_given key ≡ true) (before after : List (Sent × Awaits)) (s : Sent)
    (was : Awaits) where
  awaited-replaced :
      (next : Awaits) (n : ℕ)
      → n ≡ awaited key (before ++ (s, was) ∷ after)
      → n ≡ awaited key (before ++ (s, next) ∷ after)
  awaited-replaced next n e = ground (
    arith,
    awaited-append key before ((s, was) ∷ after),
    awaited-append key before ((s, next) ∷ after),
  )

  busy_count-release :
      (d : Desk)
      → busy_count key d ≡ awaited key (before ++ (s, was) ∷ after)
      → busy_count key (release s.key d) ≡ awaited key (before ++ after)
  unfolding release
  busy_count-release d e = ground (
    arith,
    e,
    count_of-end_any s.key key d.stores.task g,
    awaited-append key before ((s, was) ∷ after),
    awaited-append key before after,
  )

  busy_count-close :
      (d : Desk) (next : Awaits)
      → busy_count key d ≡ awaited key (before ++ (s, was) ∷ after)
      → busy_count key (close s.key d next) ≡ awaited key (before ++ (remaining s next ++ after))
  busy_count-close d released e = busy_count-release d e
  busy_count-close d awaits_reply e = awaited-replaced awaits_reply (busy_count key d) e
  busy_count-close d (awaits_listing created) e =
      awaited-replaced (awaits_listing created) (busy_count key d) e
  busy_count-close d awaits_snapshot e = awaited-replaced awaits_snapshot (busy_count key d) e

-- What can happen, from a desk on: clicks, the replies that a call's code awaits one after the other,
-- events of the backend and toasts that run out, in any order. The second argument holds the calls that
-- are under way, each with what it awaits.
pub data History (d₀ : Desk) : Desk → List (Sent × Awaits) → Type 0 where
  begun : History d₀ d₀ []
  clicked :
      (d : Desk) (calls : List (Sent × Awaits)) (e : Around) (c : Click)
      → History d₀ d calls
      → History d₀ (click e c d) (calls ++ just_made (drop (length d.sent) (click e c d).sent))
  replied :
      (d : Desk) (before after : List (Sent × Awaits)) (e : Around) (s : Sent) (reply : Reply)
      → History d₀ d (before ++ (s, awaits_reply) ∷ after)
      → History d₀
          (settle_reply e s reply d).0
          (before ++ (remaining s (settle_reply e s reply d).1 ++ after))
  backups_listed :
      (d : Desk) (before after : List (Sent × Awaits)) (e : Around) (s : Sent)
      (created : Option Text) (listing : Listing)
      → History d₀ d (before ++ (s, awaits_listing created) ∷ after)
      → History d₀
          (settle_listing e s created listing d).0
          (before ++ (remaining s (settle_listing e s created listing d).1 ++ after))
  pulled :
      (d : Desk) (before after : List (Sent × Awaits)) (e : Around) (s : Sent)
      (snapshot : Option StateSnapshot)
      → History d₀ d (before ++ (s, awaits_snapshot) ∷ after)
      → History d₀
          (settle_snapshot e s snapshot d).0
          (before ++ (remaining s (settle_snapshot e s snapshot d).1 ++ after))
  landed :
      (d : Desk) (calls : List (Sent × Awaits)) (t : Text → Params → Text) (w : Outside) (v : Event)
      → History d₀ d calls
      → History d₀ (record d { stores = land_event t w v d.stores }) calls
  expired :
      (d : Desk) (calls : List (Sent × Awaits)) (id : ℕ)
      → History d₀ d calls
      → History d₀ (expire id d) calls

drop_all : (xs ys : List Sent) → drop (length xs) (xs ++ ys) ≡ ys
drop_all [] ys = refl
drop_all (x ∷ xs) ys = drop_all xs ys

awaited_grown :
    (c d : Desk) (calls : List (Sent × Awaits)) (key : Text)
    → is_given key ≡ true
    → Counts c d
    → busy_count key c ≡ awaited key calls
    → busy_count key d ≡ awaited key (calls ++ just_made (drop (length c.sent) d.sent))
awaited_grown c d calls key g (counts new e f) was =
    f key g
    ∙ (ap (λ n. n + waiting key new) was
        ∙ (ap (λ n. awaited key calls + n) (sym (awaited-just_made key new))
            ∙ (sym (awaited-append key calls (just_made new))
                ∙ ap (λ new. awaited key (calls ++ just_made new))
                    (sym (ap (drop (length c.sent)) e ∙ drop_all c.sent new)))))

-- If no button waits at first, then after any history of clicks, replies (failed ones included), events
-- and toasts, in any order, the counter of a button is the number of its calls whose code still awaits
-- something: the reply, the listing of the backups or the snapshot. When none does, no button waits.
pub History-counts :
    (d₀ d : Desk) (calls : List (Sent × Awaits)) (key : Text)
    → is_given key ≡ true
    → busy_count key d₀ ≡ 0
    → History d₀ d calls
    → busy_count key d ≡ awaited key calls
unfolding expire settle_reply settle_listing settle_snapshot
History-counts d₀ d calls key g z begun = z
History-counts d₀ d calls key g z (clicked c cs e x h) =
    awaited_grown c (click e x c) cs key g (click-Counts e x c) (History-counts d₀ c cs key g z h)
History-counts d₀ d calls key g z (replied c before after e s reply h) =
    let p = take_reply e s.call reply c in
    busy_count-close key g before after s awaits_reply p.0 p.1 (
      ap (λ x. count_of key x.inflight) (take_reply-Keeps e s.call reply c)
      ∙ History-counts d₀ c (before ++ (s, awaits_reply) ∷ after) key g z h)
History-counts d₀ d calls key g z (backups_listed c before after e s created listing h) =
    let k = told e s.call created in
    busy_count-close key g before after s (awaits_listing created) (refresh_then listing k c)
      (closing s.call)
      (ap (λ x. count_of key x.inflight)
          (refresh_then-Keeps listing k (told-Keeps e s.call created) c)
        ∙ History-counts d₀ c (before ++ (s, awaits_listing created) ∷ after) key g z h)
History-counts d₀ d calls key g z (pulled c before after e s snapshot h) =
    busy_count-release key g before after s awaits_snapshot (pull e snapshot c) (
      ap (count_of key) (pull-inflight e snapshot c)
      ∙ History-counts d₀ c (before ++ (s, awaits_snapshot) ∷ after) key g z h)
History-counts d₀ d calls key g z (landed c cs t w v h) =
    ap (λ m. count_of key m) (land_event-inflight t w v c.stores) ∙ History-counts d₀ c cs key g z h
History-counts d₀ d calls key g z (expired c cs id h) = History-counts d₀ c cs key g z h
