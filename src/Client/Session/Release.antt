-- ===== src/Client/Session/Release.antt =====
-- Whatever ends a connection of the client, the ingest lock is free and the subscription is gone.
use tidegauge_backend.Prelude.{
  String, List, [], ◌∷◌, Bool, true, false, Option, none, some, ◌≡◌, refl, inl, inr, ◌⊎◌,
}
use tidegauge_backend.Prelude.Int.{ℤ}
use tidegauge_backend.Types.{Error, UnixMs, StringMapMap, DataTime, RowIdItemStatus}
use tidegauge_backend.Wire.{StationMessage, DataPoint, server_hello}
use tidegauge_backend.Exec.{Exec, Result, ok, err, modify, ◌>>=◌, ◌>>◌, deferred, attempt, continue}
use tidegauge_backend.Exec.Keeps.{
  Keeps, keeps_rules, bind-Keeps, if-Keeps, pure-Keeps, attempt-Keeps,
}
use tidegauge_backend.Client.{Deps, Link, recv, received, send_main_frame, sent}
use tidegauge_backend.Client.Codec.{SendMsg, build_realtime_frame}
use tidegauge_backend.Client.Replay.{
  send_replay_data, send_replay_status, replay_devices, replay_items, replay_rows, flush_full,
  flush_rest, reading, send_logs,
}
use tidegauge_backend.Client.Latest.{Latest, recv_latest, recv_latest_frames, took}
use tidegauge_backend.Client.Session.{
  Event, context_done, frames_ended, commands_ended, published, broker_closed, ended, after_forward,
  forward_realtime_data, send_built, realtime, catch_up, after_replay_data, after_replay_status,
  subscribed_part, run_on_conn, expect_server_hello, set_lock, set_subscribed,
}

-- Both as they were.
record Same (locked subscribed : Bool) (s : Link) : Type 0 where
  lock : s.ingest_locked ≡ locked
  topic : s.subscribed ≡ subscribed

module _ {a b : Bool} where
  received-Same : (l : List StationMessage) → Keeps (Same a b) (received l)
  unfolding received
  received-Same [] = record { at = λ s h. h }
  received-Same (x ∷ l) = record { at = λ s h. record { lock = h.lock; topic = h.topic } }

  recv-Same : Keeps (Same a b) recv
  unfolding recv
  recv-Same = record { at = λ s h. (received-Same s.inbox).at s h }

  sent-Same : (frame : StationMessage) (l : List (Option Error)) → Keeps (Same a b) (sent frame l)
  unfolding sent
  sent-Same frame [] = record { at = λ s h. record { lock = h.lock; topic = h.topic } }
  sent-Same frame (none ∷ l) = record { at = λ s h. record { lock = h.lock; topic = h.topic } }
  sent-Same frame (some e ∷ l) = record { at = λ s h. record { lock = h.lock; topic = h.topic } }

  send-Same : (frame : StationMessage) → Keeps (Same a b) (send_main_frame frame)
  unfolding send_main_frame
  send-Same frame = record { at = λ s h. (sent-Same frame s.faults).at s h }

  reading-Same : {A : Type 0} (r : Result A) → Keeps (Same a b) (reading r)
  reading-Same r = record { at = λ s h. h }

  inbox-Same :
      (rest : List StationMessage)
      → Keeps (Same a b) (modify (λ (s : Link). record s { inbox = rest }))
  unfolding modify
  inbox-Same rest = record { at = λ s h. record { lock = h.lock; topic = h.topic } }

  took-Same : (o : Error ⊎ Latest) → Keeps (Same a b) (took o)
  took-Same (inl e) = search keeps_rules
  took-Same (inr l) = search keeps_rules

ruleset same_rules = (keeps_rules, recv-Same, send-Same, reading-Same, inbox-Same, took-Same)

module _ {a b : Bool} where
  recv_latest-Same :
      (frames : List StationMessage) (l : Latest) → Keeps (Same a b) (recv_latest frames l)
  unfolding recv_latest
  recv_latest-Same [] l = search same_rules
  recv_latest-Same (f ∷ fs) l = if-Keeps _ _ _ (pure-Keeps l) (
      bind-Keeps _ _ (inbox-Same fs)
        (λ _. bind-Keeps _ _ (took-Same _) (λ l'. recv_latest-Same fs l')))

  recv_latest_frames-Same : Keeps (Same a b) recv_latest_frames
  unfolding recv_latest_frames
  recv_latest_frames-Same = search (same_rules, recv_latest-Same)

  flush_full-Same : (ps : List DataPoint) → Keeps (Same a b) (flush_full ps)
  unfolding flush_full
  flush_full-Same ps = search same_rules

  replay_rows-Same :
      (name : String) (ps : List DataPoint) (ds : List DataTime)
      → Keeps (Same a b) (replay_rows name ps ds)
  unfolding replay_rows
  replay_rows-Same name ps [] = pure-Keeps ps
  replay_rows-Same name ps (d ∷ ds) =
      bind-Keeps _ _ (flush_full-Same _) (λ left. replay_rows-Same name left ds)

  replay_items-Same :
      (deps : Deps) (latest : List (String × UnixMs)) (ps : List DataPoint)
      (items : List (String × String))
      → Keeps (Same a b) (replay_items deps latest ps items)
  unfolding replay_items
  replay_items-Same deps latest ps [] = pure-Keeps ps
  replay_items-Same deps latest ps ((t, name) ∷ rest) = bind-Keeps _ _ (reading-Same _) (λ ds.
      bind-Keeps _ _ (replay_rows-Same name ps ds)
        (λ left. replay_items-Same deps latest left rest))

  replay_devices-Same :
      (deps : Deps) (latest : List (String × UnixMs)) (ps : List DataPoint) (devices : StringMapMap)
      → Keeps (Same a b) (replay_devices deps latest ps devices)
  unfolding replay_devices
  replay_devices-Same deps latest ps [] = pure-Keeps ps
  replay_devices-Same deps latest ps ((d, items) ∷ rest) =
      bind-Keeps _ _ (replay_items-Same deps latest ps items)
        (λ left. replay_devices-Same deps latest left rest)

  flush_rest-Same : (ps : List DataPoint) → Keeps (Same a b) (flush_rest ps)
  unfolding flush_rest
  flush_rest-Same ps = search same_rules

  send_replay_data-Same :
      (deps : Deps) (latest : List (String × UnixMs))
      → Keeps (Same a b) (send_replay_data deps latest)
  unfolding send_replay_data
  send_replay_data-Same deps latest = search (same_rules, replay_devices-Same, flush_rest-Same)

  send_logs-Same : (logs : List RowIdItemStatus) → Keeps (Same a b) (send_logs logs)
  unfolding send_logs
  send_logs-Same [] = search same_rules
  send_logs-Same (l ∷ ls) = search same_rules

  send_replay_status-Same :
      (deps : Deps) (row_id : ℤ) → Keeps (Same a b) (send_replay_status deps row_id)
  unfolding send_replay_status
  send_replay_status-Same deps row_id = search (same_rules, send_logs-Same)

module _ {a b : Bool} where
  send_built-Same : (o : Option StationMessage) → Keeps (Same a b) (send_built o)
  unfolding send_built
  send_built-Same none = pure-Keeps tt
  send_built-Same (some f) = send-Same f

  forward-Same : (msg : Option SendMsg) → Keeps (Same a b) (forward_realtime_data msg)
  unfolding forward_realtime_data
  forward-Same none = pure-Keeps tt
  forward-Same (some msg) = send_built-Same (build_realtime_frame msg)

  ended-Same : (o : Option Error) → Keeps (Same a b) (ended o)
  unfolding ended
  ended-Same none = pure-Keeps tt
  ended-Same (some e) = search same_rules

  after_forward-Same :
      (next : Exec Link Unit) (r : Result {0} Unit)
      → Keeps (Same a b) next
      → Keeps (Same a b) (after_forward next r)
  unfolding after_forward
  after_forward-Same next (ok _) k = k
  after_forward-Same next (err e) k = if-Keeps _ _ _ (pure-Keeps tt) k

  realtime-Same : (events : List Event) → Keeps (Same a b) (realtime events)
  unfolding realtime
  realtime-Same [] = pure-Keeps tt
  realtime-Same (context_done e ∷ rest) = search same_rules
  realtime-Same (frames_ended e ∷ rest) = ended-Same (some e)
  realtime-Same (commands_ended (some done) result ∷ rest) = search same_rules
  realtime-Same (commands_ended none result ∷ rest) = ended-Same result
  realtime-Same (broker_closed ∷ rest) = pure-Keeps tt
  realtime-Same (published msg ∷ rest) =
      attempt-Keeps _ _ (forward-Same msg) (λ r. after_forward-Same _ r (realtime-Same rest))

  hello-Same : (m : StationMessage) → Keeps (Same a b) (expect_server_hello m)
  unfolding expect_server_hello
  hello-Same (server_hello _) = search same_rules
  hello-Same _ = search same_rules

-- A replay under the lock leaves the lock held and no subscription.
abbrev locked : Link → Link
locked s = record s { ingest_locked = true }

locked-Same : (s : Link) → s.subscribed ≡ false → Same true false (locked s)
locked-Same s quiet = record { lock = refl; topic = quiet }

-- What the catch-up leaves: after an error both are released, and otherwise the lock is held and the
-- subscription is entered.
abbrev CaughtUp : Result {0} Unit → Link → Type 0
CaughtUp (ok u) s = Same true true s
CaughtUp (err e) s = Same false false s

after_replay_status-CaughtUp :
    (r : Result {0} Unit) (s : Link)
    → Same true false s
    → CaughtUp (after_replay_status r s).0 (after_replay_status r s).1
unfolding after_replay_status ◌>>=◌ set_lock set_subscribed modify
after_replay_status-CaughtUp (err e) s h = record { lock = refl; topic = h.topic }
after_replay_status-CaughtUp (ok u) s h = record { lock = h.lock; topic = refl }

after_replay_data-CaughtUp :
    (deps : Deps) (row_id : ℤ) (r : Result {0} Unit) (s : Link)
    → Same true false s
    → CaughtUp (after_replay_data deps row_id r s).0 (after_replay_data deps row_id r s).1
unfolding after_replay_data ◌>>=◌ set_lock modify attempt
after_replay_data-CaughtUp deps row_id (err e) s h = record { lock = refl; topic = h.topic }
after_replay_data-CaughtUp deps row_id (ok u) s h =
    after_replay_status-CaughtUp (send_replay_status deps row_id s).0
      (send_replay_status deps row_id s).1 ((send_replay_status-Same deps row_id).at s h)

catch_up-CaughtUp :
    (deps : Deps) (items : List (String × ℤ)) (row_id : ℤ) (s : Link)
    → s.subscribed ≡ false
    → CaughtUp (catch_up deps items row_id s).0 (catch_up deps items row_id s).1
unfolding catch_up ◌>>=◌ set_lock modify attempt
catch_up-CaughtUp deps items row_id s quiet =
    after_replay_data-CaughtUp deps row_id (send_replay_data deps items (locked s)).0
      (send_replay_data deps items (locked s)).1
      ((send_replay_data-Same deps items).at (locked s) (locked-Same s quiet))

-- What runs from `IngestLock.Lock()` on.
abbrev locked_part : Deps → List (String × ℤ) → ℤ → List Event → Exec Link Unit
locked_part deps items row_id events = do
  catch_up deps items row_id
  deferred (set_subscribed false) (subscribed_part events)

released :
    (events : List Event) (r : Result {0} Unit) (s : Link)
    → CaughtUp r s
    → Same false false
        (continue r (λ u. deferred (set_subscribed false) (subscribed_part events)) s).1
unfolding subscribed_part ◌>>=◌ deferred set_lock set_subscribed modify
released events (err e) s h = h
released events (ok u) s h = record {
  lock =
      ((realtime-Same events).at (record s { ingest_locked = false })
        (record { lock = refl; topic = h.topic })).lock;
  topic = refl;
}

locked_part-Same :
    (deps : Deps) (items : List (String × ℤ)) (row_id : ℤ) (events : List Event)
    → Keeps (Same false false) (locked_part deps items row_id events)
unfolding ◌>>=◌
locked_part-Same deps items row_id events = record {
  at = λ s h.
      released events (catch_up deps items row_id s).0 (catch_up deps items row_id s).1
        (catch_up-CaughtUp deps items row_id s h.topic);
}

-- Whatever the server sends, the local database and the broker give and the sends do, and however
-- `runOnConn` ends: a connection that begins with the ingest lock free and without a subscription
-- leaves the lock free and no subscription behind.
pub run_on_conn-released :
    (identifier : String) (deps : Deps) (events : List Event) (s : Link)
    → s.ingest_locked ≡ false
    → s.subscribed ≡ false
    → ((run_on_conn identifier deps events s).1.ingest_locked ≡ false)
      × ((run_on_conn identifier deps events s).1.subscribed ≡ false)
unfolding run_on_conn
run_on_conn-released identifier deps events s unlocked quiet =
    let keeps = bind-Keeps _ _ (send-Same _) (λ _. bind-Keeps _ _ recv-Same (λ first.
      bind-Keeps _ _ (hello-Same first) (λ _. bind-Keeps _ _ (send-Same _) (λ _.
        bind-Keeps _ _ recv_latest_frames-Same
          (λ latest. locked_part-Same deps latest.items latest.row_id events))))) in
    let same = keeps.at s (record { lock = unlocked; topic = quiet }) in (same.lock, same.topic)
