-- ===== src/Station/Stream.antt =====
-- tide_server/syncv2/station/server.go: `StreamStation`.
use tidegauge_backend.Prelude.{
  ℕ, String, List, [], ◌∷◌, not, some, ◌==◌, string_keys, if◌then◌else◌,
}
use tidegauge_backend.Types.{Uuid, UnixMs, new, wrap, StationInfo, normal, disconnected}
use tidegauge_backend.Wire.{
  StationMessage, server_hello, station_info, items_latest, status_latest, data_batch,
  item_status_batch, rpi_status,
}
use tidegauge_backend.Exec.{Exec, pure, raise, gets, wrapping, modify, ◌>>=◌, ◌>>◌, deferred}
use tidegauge_backend.Station.{StationStore, Session, on_store, recv, send}
use tidegauge_backend.Station.Server.{
  pb_to_station_info, recv_hello, recv_station_info, load_or_store, registry_delete,
  update_station_status_and_notify, handle_data_batch,
}
use tidegauge_backend.Station.StatusBatch.{handle_item_status_batch}

module _ {D : Type 0} (store : StationStore D) where
  -- The `switch` of the main loop. A frame of another kind is logged and passed over.
  unfoldable pub handle_frame : Uuid → String → StationMessage → Exec (Session D) Unit
  handle_frame id identifier (data_batch batch) = handle_data_batch store id batch
  handle_frame id identifier (item_status_batch batch) =
      handle_item_status_batch store id identifier batch
  handle_frame id identifier (rpi_status status) = on_store (
      store.save_rpi_status id
        (record { cpu_temp = status.cpu_temp; millisecond = status.unix_ms }))
  handle_frame id identifier (station_info (some info)) =
      on_store (store.sync_station_info id (pb_to_station_info info))
  handle_frame id identifier _ = pure tt

  -- The loop `for { … }`: its list is what waits in the inbox, and it ends by an error alone.
  unfoldable pub serve_frames : Uuid → String → List StationMessage → Exec (Session D) Unit
  serve_frames id identifier [] = do frame ← recv; pure tt
  serve_frames id identifier (frame ∷ rest) = do
    modify (λ s. record s { inbox = rest })
    handle_frame id identifier frame
    serve_frames id identifier rest

  -- The body below the second `defer`.
  unfoldable pub run_session : Uuid → StationInfo → UnixMs → String → Exec (Session D) Unit
  run_session id info now remote_addr = do
    update_station_status_and_notify store id info.identifier normal now
    wrapping (wrap "failed to update station ip") (on_store (store.set_station_ip id remote_addr))
    on_store (store.sync_station_info id info)
    latest ←
        wrapping (wrap "failed to get item latest") (on_store (store.items_latest id info.devices))
    send (items_latest latest)
    row_id ←
        wrapping (wrap "failed to get latest status row id")
          (on_store (store.latest_status_log_row_id id))
    send (status_latest row_id)
    frames ← gets (λ s. s.inbox)
    serve_frames id info.identifier frames

  -- The body below the first `defer`. `now` and `later` are the times at which the station is marked
  -- normal and disconnected.
  unfoldable pub run_registered : Uuid → String → UnixMs → UnixMs → String → Exec (Session D) Unit
  run_registered id identifier now later remote_addr = do
    send (server_hello "sync-v2")
    info ← recv_station_info
    if not (info.identifier == identifier)
        then raise (new "station identifier mismatch")
        else deferred (update_station_status_and_notify store id info.identifier disconnected later)
            (run_session id info now remote_addr)

  unfoldable pub register : ℕ → UnixMs → UnixMs → String → String → Uuid → Exec (Session D) Unit
  register conn now later remote_addr identifier id = do
    loaded ← load_or_store id conn
    if loaded
        then raise (new "station already connected")
        else deferred (registry_delete id) (run_registered id identifier now later remote_addr)

  unfoldable pub stream_station : ℕ → UnixMs → UnixMs → String → Exec (Session D) Unit
  stream_station conn now later remote_addr = do
    hello ← recv_hello
    id ←
        wrapping (wrap "station not found")
          (on_store (store.station_id_by_identifier hello.station_identifier))
    register conn now later remote_addr hello.station_identifier id
