-- ===== src/Station/Registered.antt =====
-- The registry of tide_server/syncv2/station across a session: a station is entered while its session
-- runs, and whatever ends the session, the entry goes with it.
use tidegauge_backend.Prelude.{
  ℕ, String, List, [], ◌∷◌, Bool, Option, none, some, string_keys, nat_keys, ◌≡◌, refl, lookup,
  insert, delete, delete-insert, ◌∙◌, ap,
}
use tidegauge_backend.Types.{Uuid, UnixMs, Error, StationInfo, RowIdItemStatus}
use tidegauge_backend.Wire.{
  StationMessage, client_hello, station_info, data_batch, item_status_batch, DataPoint,
  ItemStatusLog,
}
use tidegauge_backend.Exec.{Exec, modify, ◌>>=◌, deferred}
use tidegauge_backend.Exec.Keeps.{Keeps, keeps_rules, if-Keeps, bind-Keeps, pure-Keeps}
use tidegauge_backend.Station.{
  StationStore, Session, Notice, on_store, recv, received, send, sent, notify,
}
use tidegauge_backend.Station.Server.{
  recv_hello, check_hello, recv_station_info, check_station_info, load_or_store, loaded_or_stored,
  registry_delete, update_station_status_and_notify, handle_data_batch, handle_points, handle_point,
  save_point,
}
use tidegauge_backend.Station.StatusBatch.{
  handle_item_status_batch, update_statuses, save_missed, save_updates,
}
use tidegauge_backend.Station.Stream.{
  handle_frame, serve_frames, run_session, run_registered, register, stream_station,
}

record Same {D : Type 0} (r : List (Uuid × ℕ)) (s : Session D) : Type 0 where
  same : s.registry ≡ r

module _ {D : Type 0} {r : List (Uuid × ℕ)} where
  on_store-Same : {A : Type 0} (m : Exec D A) → Keeps (Same r) (on_store m)
  unfolding on_store
  on_store-Same m = record { at = λ s h. record { same = h.same } }

  received-Same : (l : List StationMessage) → Keeps (Same {D = D} r) (received l)
  unfolding received
  received-Same [] = record { at = λ s h. h }
  received-Same (x ∷ l) = record { at = λ s h. record { same = h.same } }

  recv-Same : Keeps (Same r) (recv {D = D})
  unfolding recv
  recv-Same = record { at = λ s h. (received-Same s.inbox).at s h }

  sent-Same :
      (frame : StationMessage) (l : List (Option Error)) → Keeps (Same {D = D} r) (sent frame l)
  unfolding sent
  sent-Same frame [] = record { at = λ s h. record { same = h.same } }
  sent-Same frame (none ∷ l) = record { at = λ s h. record { same = h.same } }
  sent-Same frame (some e ∷ l) = record { at = λ s h. record { same = h.same } }

  send-Same : (frame : StationMessage) → Keeps (Same {D = D} r) (send frame)
  unfolding send
  send-Same frame = record { at = λ s h. (sent-Same frame s.faults).at s h }

  notify-Same : (n : Notice) → Keeps (Same {D = D} r) (notify n)
  unfolding notify
  notify-Same n = record { at = λ s h. record { same = h.same } }

  inbox-Same :
      (rest : List StationMessage)
      → Keeps (Same r) (modify (λ (s : Session D). record s { inbox = rest }))
  unfolding modify
  inbox-Same rest = record { at = λ s h. record { same = h.same } }

ruleset same_rules = (keeps_rules, on_store-Same, recv-Same, send-Same, notify-Same, inbox-Same)

module _ {D : Type 0} {r : List (Uuid × ℕ)} where
  check_hello-Same : (m : StationMessage) → Keeps (Same {D = D} r) (check_hello m)
  unfolding check_hello
  check_hello-Same (client_hello (some h)) = search same_rules
  check_hello-Same _ = search same_rules

  check_station_info-Same : (m : StationMessage) → Keeps (Same {D = D} r) (check_station_info m)
  unfolding check_station_info
  check_station_info-Same (station_info (some h)) = search same_rules
  check_station_info-Same _ = search same_rules

  recv_hello-Same : Keeps (Same {D = D} r) recv_hello
  unfolding recv_hello
  recv_hello-Same = search (same_rules, check_hello-Same)

  recv_station_info-Same : Keeps (Same {D = D} r) recv_station_info
  unfolding recv_station_info
  recv_station_info-Same = search (same_rules, check_station_info-Same)

module _ {D : Type 0} (store : StationStore D) {r : List (Uuid × ℕ)} where
  status-Same :
      (id : Uuid) (identifier status : String) (now : UnixMs)
      → Keeps (Same r) (update_station_status_and_notify store id identifier status now)
  unfolding update_station_status_and_notify
  status-Same id identifier status now = search same_rules

  save_point-Same :
      (id : Uuid) (replay : Bool) (p : DataPoint) → Keeps (Same r) (save_point store id replay p)
  unfolding save_point
  save_point-Same id replay p = search same_rules

  handle_point-Same :
      (id : Uuid) (replay : Bool) (p : DataPoint) → Keeps (Same r) (handle_point store id replay p)
  unfolding handle_point
  handle_point-Same id replay p = search (same_rules, save_point-Same)

  handle_points-Same :
      (id : Uuid) (replay : Bool) (ps : List DataPoint)
      → Keeps (Same r) (handle_points store id replay ps)
  unfolding handle_points
  handle_points-Same id replay [] = search same_rules
  handle_points-Same id replay (p ∷ ps) =
      bind-Keeps _ _ (handle_point-Same id replay p) (λ _. handle_points-Same id replay ps)

  update_statuses-Same :
      (id : Uuid) (l : List (String × RowIdItemStatus))
      → Keeps (Same r) (update_statuses store id l)
  unfolding update_statuses
  update_statuses-Same id [] = search same_rules
  update_statuses-Same id ((i, v) ∷ l) =
      bind-Keeps _ _ (on_store-Same _) (λ _. update_statuses-Same id l)

  save_missed-Same :
      (id : Uuid) (identifier : String) (l : List ItemStatusLog)
      → Keeps (Same r) (save_missed store id identifier l)
  unfolding save_missed
  save_missed-Same id identifier [] = search same_rules
  save_missed-Same id identifier (m ∷ l) = bind-Keeps _ _ (on_store-Same _) (λ b.
      bind-Keeps _ _ (if-Keeps b _ _ (notify-Same _) (pure-Keeps tt))
        (λ _. save_missed-Same id identifier l))

  save_updates-Same :
      (id : Uuid) (identifier : String) (l : List ItemStatusLog)
      → Keeps (Same r) (save_updates store id identifier l)
  unfolding save_updates
  save_updates-Same id identifier [] = search same_rules
  save_updates-Same id identifier (m ∷ l) = bind-Keeps _ _ (on_store-Same _) (λ b.
      bind-Keeps _ _ (if-Keeps b _ _ (notify-Same _) (pure-Keeps tt))
        (λ _. save_updates-Same id identifier l))

  handle_frame-Same :
      (id : Uuid) (identifier : String) (f : StationMessage)
      → Keeps (Same r) (handle_frame store id identifier f)
  unfolding handle_frame
  handle_frame-Same id identifier (data_batch b) =
      unfold handle_data_batch in handle_points-Same id b.replay b.points
  handle_frame-Same id identifier (item_status_batch b) =
      unfold handle_item_status_batch in
      if-Keeps b.replay _ _ (search (same_rules, update_statuses-Same, save_missed-Same))
        (save_updates-Same id identifier b.logs)
  handle_frame-Same id identifier (station_info (some info)) = search same_rules
  handle_frame-Same id identifier _ = search same_rules

  serve_frames-Same :
      (id : Uuid) (identifier : String) (l : List StationMessage)
      → Keeps (Same r) (serve_frames store id identifier l)
  unfolding serve_frames
  serve_frames-Same id identifier [] = search same_rules
  serve_frames-Same id identifier (f ∷ l) = bind-Keeps _ _ (inbox-Same l) (λ _.
      bind-Keeps _ _ (handle_frame-Same id identifier f) (λ _. serve_frames-Same id identifier l))

  run_session-Same :
      (id : Uuid) (info : StationInfo) (now : UnixMs) (addr : String)
      → Keeps (Same r) (run_session store id info now addr)
  unfolding run_session
  run_session-Same id info now addr = search (same_rules, status-Same, serve_frames-Same) depth 12

  run_registered-Same :
      (id : Uuid) (identifier : String) (now later : UnixMs) (addr : String)
      → Keeps (Same r) (run_registered store id identifier now later addr)
  unfolding run_registered
  run_registered-Same id identifier now later addr =
      search (same_rules, status-Same, recv_station_info-Same, run_session-Same) depth 8

module _ {D : Type 0} (store : StationStore D) where
  module _ (conn : ℕ) (now later : UnixMs) (addr identifier : String) (id : Uuid) where
    -- What follows `LoadOrStore`, by whether it found an entry.
    entered :
        (r : List (Uuid × ℕ)) (o : Option ℕ) (s : Session D)
        → lookup id s.registry ≡ o
        → s.registry ≡ r
        → (register store conn now later addr identifier id s).1.registry ≡ r
    unfolding register ◌>>=◌ load_or_store deferred registry_delete
    entered r (some other) s o h = rw (o, loaded_or_stored) h
    entered r none s o h =
        rw (o, loaded_or_stored)
          (ap (delete id)
              ((run_registered-Same store {r = insert id conn s.registry} id identifier now later
                  addr).at
                (record s { registry = insert id conn s.registry }) (record { same = refl })).same
            ∙ delete-insert id conn s.registry o
            ∙ h)

    register-Same :
        {r : List (Uuid × ℕ)} → Keeps (Same r) (register store conn now later addr identifier id)
    register-Same {r} = record {
      at = λ s h. record { same = entered r (lookup id s.registry) s refl h.same };
    }

  stream_station-Same :
      {r : List (Uuid × ℕ)} (conn : ℕ) (now later : UnixMs) (addr : String)
      → Keeps (Same r) (stream_station store conn now later addr)
  unfolding stream_station
  stream_station-Same conn now later addr = search (same_rules, recv_hello-Same, register-Same)

-- However a session ends (a bad frame, an identifier that does not match, an error of the database
-- or of a send, or the end of the connection), the registry is what it was before the session: no
-- station stays registered, and a session that was refused evicts nobody.
pub registry-stream_station :
    {D : Type 0} (store : StationStore D) (conn : ℕ) (now later : UnixMs) (addr : String)
    (s : Session D)
    → (stream_station store conn now later addr s).1.registry ≡ s.registry
registry-stream_station store conn now later addr s =
    ((stream_station-Same store {r = s.registry} conn now later addr).at s
      (record { same = refl })).same
