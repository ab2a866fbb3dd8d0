-- ===== src/Client/Session.antt =====
-- tide_client/syncv2/session.go: `runOnConn` and the goroutines that it starts.
pub mod Release
use tidegauge_backend.Prelude.{
  ℕ, String, List, [], ◌∷◌, Bool, true, false, not, Option, none, some, if◌then◌else◌,
}
use tidegauge_backend.Prelude.Int.{ℤ}
use tidegauge_backend.Types.{Error, new, StationInfo, is_eof, is_canceled}
use tidegauge_backend.Wire.{
  StationMessage, client_hello, server_hello, station_info, items_latest, status_latest, data_batch,
  item_status_batch, rpi_status, snapshot_request, snapshot_response, error_frame, unset,
  PbStationInfo,
}
use tidegauge_backend.Exec.{
  Exec, Result, ok, err, pure, raise, gets, modify, ◌>>=◌, ◌>>◌, deferred, attempt,
}
use tidegauge_backend.Client.{Deps, Link, recv, send_main_frame}
use tidegauge_backend.Client.Codec.{SendMsg, build_realtime_frame, build_snapshot_response_frame}
use tidegauge_backend.Client.Replay.{send_replay_data, send_replay_status}
use tidegauge_backend.Client.Latest.{recv_latest_frames}

-- internal/syncv2/station_info.go: the maps are copied entry by entry.
unfoldable pub station_info_to_pb : StationInfo → PbStationInfo
station_info_to_pb info = record {
  identifier = info.identifier;
  devices = info.devices;
  cameras = info.cameras;
}

-- What the `select` of the realtime loop receives, in the order in which it receives it: the context's
-- end, the end of `recvStationFrames` (always with an error), the end of the command loop (with the
-- context's error then, if it is done), a value of the local broker (`none`: not a `SendMsgStruct`),
-- or that the subscription's channel is closed.
pub data Event : Type 0 where
  context_done : Error → Event
  frames_ended : Error → Event
  commands_ended : Option Error → Option Error → Event
  published : Option SendMsg → Event
  broker_closed : Event

-- The result of `recvStationFrames` on the frames that come, and the error after them.
unfoldable pub recv_station_frames : List StationMessage → Error → Error
recv_station_frames [] closed = closed
recv_station_frames (error_frame e ∷ rest) closed = new e.message
recv_station_frames (client_hello _ ∷ rest) closed = recv_station_frames rest closed
recv_station_frames (server_hello _ ∷ rest) closed = recv_station_frames rest closed
recv_station_frames (station_info _ ∷ rest) closed = recv_station_frames rest closed
recv_station_frames (items_latest _ ∷ rest) closed = recv_station_frames rest closed
recv_station_frames (status_latest _ ∷ rest) closed = recv_station_frames rest closed
recv_station_frames (data_batch _ ∷ rest) closed = recv_station_frames rest closed
recv_station_frames (item_status_batch _ ∷ rest) closed = recv_station_frames rest closed
recv_station_frames (rpi_status _ ∷ rest) closed = recv_station_frames rest closed
recv_station_frames (snapshot_request _ ∷ rest) closed = recv_station_frames rest closed
recv_station_frames (snapshot_response _ ∷ rest) closed = recv_station_frames rest closed
recv_station_frames (unset ∷ rest) closed = recv_station_frames rest closed

unfoldable pub send_built : Option StationMessage → Exec Link Unit
send_built none = pure tt
send_built (some frame) = send_main_frame frame

unfoldable pub forward_realtime_data : Option SendMsg → Exec Link Unit
unfolding send_built
forward_realtime_data none = pure tt
forward_realtime_data (some msg) = send_built (build_realtime_frame msg)

-- `if err != nil && !errors.Is(err, io.EOF) { return err }; return nil`.
unfoldable pub ended : Option Error → Exec Link Unit
ended none = pure tt
ended (some e) = if is_eof e then pure tt else raise e

-- What follows a forwarded value: only a canceled send ends the loop, any other failure is logged.
unfoldable pub after_forward : Exec Link Unit → Result {0} Unit → Exec Link Unit
after_forward next (ok _) = next
after_forward next (err e) = if is_canceled e then pure tt else next

-- The loop on the events to come; with no more of them the session is still running.
unfoldable pub realtime : List Event → Exec Link Unit
unfolding ended after_forward
realtime [] = pure tt
realtime (context_done e ∷ rest) = raise e
realtime (frames_ended e ∷ rest) = ended (some e)
realtime (commands_ended (some done) result ∷ rest) = raise done
realtime (commands_ended none result ∷ rest) = ended result
realtime (broker_closed ∷ rest) = pure tt
realtime (published msg ∷ rest) =
    attempt (forward_realtime_data msg) (after_forward (realtime rest))

unfoldable pub expect_server_hello : StationMessage → Exec Link Unit
expect_server_hello (server_hello _) = pure tt
expect_server_hello _ = raise (new "expected server_hello")

unfoldable pub set_lock : Bool → Exec Link Unit
set_lock b = modify (λ s. record s { ingest_locked = b })

unfoldable pub set_subscribed : Bool → Exec Link Unit
set_subscribed b = modify (λ s. record s { subscribed = b })

-- What follows the second replay: an error unlocks and ends; else the subscription is entered.
unfoldable pub after_replay_status : Result {0} Unit → Exec Link Unit
unfolding set_lock set_subscribed
after_replay_status (err e) = do set_lock false; raise e
after_replay_status (ok _) = set_subscribed true

-- What follows the first replay, in the same way.
unfoldable pub after_replay_data : Deps → ℤ → Result {0} Unit → Exec Link Unit
unfolding set_lock
after_replay_data deps row_id (err e) = do set_lock false; raise e
after_replay_data deps row_id (ok _) = attempt (send_replay_status deps row_id) after_replay_status

-- From `IngestLock.Lock()` to `Subscribe`: each error path unlocks for itself.
unfoldable pub catch_up : Deps → List (String × ℤ) → ℤ → Exec Link Unit
unfolding set_lock
catch_up deps items row_id = do
  set_lock true
  attempt (send_replay_data deps items) (after_replay_data deps row_id)

-- Below `defer c.deps.Unsubscribe(subscriber)`.
unfoldable pub subscribed_part : List Event → Exec Link Unit
unfolding set_lock
subscribed_part events = do set_lock false; realtime events

unfoldable pub run_on_conn : String → Deps → List Event → Exec Link Unit
unfolding expect_server_hello set_subscribed
run_on_conn identifier deps events = do
  send_main_frame
      (client_hello (some (record { station_identifier = identifier; protocol_version = "v2" })))
  first ← recv
  expect_server_hello first
  send_main_frame (station_info (some (station_info_to_pb deps.station_info)))
  latest ← recv_latest_frames
  catch_up deps latest.items latest.row_id
  deferred (set_subscribed false) (subscribed_part events)

-- A command stream: one request is received and answered. `error_text` is `err.Error()`.
unfoldable pub handle_command : (Error → String) → Deps → StationMessage → Exec Link Unit
handle_command error_text deps (snapshot_request name) =
    send_main_frame (build_snapshot_response_frame error_text name deps.get_camera deps.snapshot)
handle_command error_text deps (error_frame e) = raise (new e.message)
handle_command error_text deps _ = raise (new "unexpected frame while handling command stream")

unfoldable pub handle_command_stream : (Error → String) → Deps → Exec Link Unit
unfolding handle_command
handle_command_stream error_text deps = do frame ← recv; handle_command error_text deps frame
