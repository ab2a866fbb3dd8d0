-- ===== src/Relay/Downstream.antt =====
-- tide_server/syncv2/relay/downstream.go: the side that follows, once its connection is open.
pub mod Missing
pub mod Saved
use tidegauge_backend.Prelude.{
  ℕ, String, List, [], ◌∷◌, ◌++◌, Bool, true, false, not, ◌&&◌, Option, none, some, insert, lookup,
  string_keys, nat_keys, ◌==◌, if◌then◌else◌,
}
use tidegauge_backend.Prelude.Int.{ℤ}
use tidegauge_backend.Types.{
  Uuid, UnixMs, Error, new, UuidStringsMap, StationItem, DataTime, FullItemStatus, is_eof,
}
use tidegauge_backend.Wire.{DataPoint}
use tidegauge_backend.Exec.{
  Exec, Result, ok, err, pure, raise, gets, modify, ◌>>=◌, ◌>>◌, attempt, ignoring,
}
use tidegauge_backend.Relay.{
  DownstreamStore, Codec, Peer, Notice, on_store, recv, send, notify, publish_config,
  publish_miss_data, item_status_body,
}
use tidegauge_backend.Relay.Wire.{
  RelayMessage, downstream_hello, upstream_hello, config_batch, data_batch, status_event,
  available_items, stations_items_latest, stations_status_latest, error_frame, unset,
  RelayConfigBatch, RelayDataBatch, RelayConfigEvent, RelayStationFull,
}
use tidegauge_backend.Relay.Apply.{apply_available_items, apply_full_config}
use tidegauge_backend.Relay.Events.{
  no_points, apply_config_event, apply_status_event, apply_data_batch,
}
use tidegauge_backend.Relay.Upstream.Frames.{items_by_station}

module _ {D : Type 0} where
  expect_upstream_hello : RelayMessage → Exec (Peer D) Unit
  expect_upstream_hello (upstream_hello _) = pure tt
  expect_upstream_hello _ = raise (new "expected upstream_hello")

  unfoldable pub run_downstream_handshake : String → Exec (Peer D) Unit
  unfolding expect_upstream_hello
  run_downstream_handshake username = do
    send (downstream_hello (some (record { username = username; protocol_version = "v2" })))
    frame ← recv
    expect_upstream_hello frame

  expect_available : RelayMessage → Exec (Peer D) (List (String × List String))
  expect_available (available_items m) = pure m
  expect_available _ = raise (new "expected available_items")

  full_batch : RelayConfigBatch → Exec (Peer D) RelayConfigBatch
  full_batch batch =
      if batch.full_sync then pure batch else raise (new "expected full config batch")

  expect_full_config : RelayMessage → Exec (Peer D) RelayConfigBatch
  unfolding full_batch
  expect_full_config (config_batch batch) = full_batch batch
  expect_full_config _ = raise (new "expected full config batch")

  expect_miss_status : RelayMessage → Exec (Peer D) RelayConfigBatch
  expect_miss_status (config_batch batch) = pure batch
  expect_miss_status _ = raise (new "expected config batch with miss status logs")

  module _ (codec : Codec) (store : DownstreamStore D) where
    latest_row :
        RelayStationFull → List (String × ℤ) → Option Uuid → Exec (Peer D) (List (String × ℤ))
    latest_row station m none = pure m
    latest_row station m (some id) = do
      row_id ← on_store (store.latest_status_log_row_id id)
      pure (insert station.id row_id m)

    unfoldable pub latest_rows :
        List (String × ℤ) → List RelayStationFull → Exec (Peer D) (List (String × ℤ))
    unfolding latest_row
    latest_rows m [] = pure m
    latest_rows m (station ∷ rest) = do
      m' ← latest_row station m (codec.parse_uuid station.id)
      latest_rows m' rest

    -- The body of the loop for a log that is read: an error of the database passes on to the next one.
    unfoldable pub save_missed : FullItemStatus → Exec (Peer D) Unit
    save_missed info = do
      on_store (
          store.update_item_status info.station_id info.log.item_status.item_name
            info.log.item_status.change.status info.log.item_status.change.changed_at)
      inserted ← on_store (
          store.save_item_status_log info.station_id info.log.row_id info.log.item_status.item_name
            info.log.item_status.change.status info.log.item_status.change.changed_at)
      if inserted then notify (publish_config "MissItemStatus" (item_status_body info)) else pure tt

    save_read : Result FullItemStatus → Exec (Peer D) Unit
    unfolding save_missed
    save_read (ok info) = save_missed info
    save_read (err _) = pure tt

    unfoldable pub save_miss_events : List RelayConfigEvent → Exec (Peer D) Unit
    unfolding save_read save_missed
    save_miss_events [] = pure tt
    save_miss_events (evt ∷ rest) =
        ignoring
          (if evt.type_name == "MissItemStatus"
            then save_read (codec.read_item_status evt.payload)
            else pure tt)
          (save_miss_events rest)

    unfoldable pub sync_miss_status : List RelayStationFull → Exec (Peer D) Unit
    unfolding expect_miss_status latest_rows latest_row save_miss_events save_read save_missed
    sync_miss_status stations = do
      latest ← latest_rows [] stations
      send (stations_status_latest (some latest))
      frame ← recv
      batch ← expect_miss_status frame
      save_miss_events batch.events

    unfoldable pub latest_of_stations :
        UuidStringsMap → Exec (Peer D) (List (String × List (String × UnixMs)))
    latest_of_stations [] = pure []
    latest_of_stations ((id, names) ∷ rest) = do
      latest ← on_store (store.items_latest id names)
      more ← latest_of_stations rest
      pure ((codec.show_uuid id, latest) ∷ more)

    abbrev pub miss_notice : Uuid → DataPoint → Notice
    miss_notice id point =
        publish_miss_data (record { station_id = id; item_name = point.item_name })
          (record { value = point.value; millisecond = point.unix_ms })

    unfoldable pub save_points : Uuid → List DataPoint → Exec (Peer D) Unit
    save_points id [] = pure tt
    save_points id (point ∷ rest) = do
      on_store (store.ensure_data_table point.item_name)
      inserted ← on_store (store.save_data_history id point.item_name point.value point.unix_ms)
      if inserted then notify (miss_notice id point) else pure tt
      save_points id rest

    unfoldable pub save_points_at : Option Uuid → List DataPoint → Exec (Peer D) Unit
    save_points_at none points = pure tt
    save_points_at (some id) points = save_points id points

    -- What one frame of the missing data does: whether it ends them.
    unfoldable pub take_data : RelayMessage → Exec (Peer D) Bool
    take_data (data_batch batch) =
        if (batch.station_id == "") && no_points batch.points
        then pure true
        else (do save_points_at (codec.parse_uuid batch.station_id) batch.points; pure false)
    take_data _ = raise (new "unexpected frame during miss data sync")

    -- The loop `for { … }`; its list is what waits in the inbox.
    unfoldable pub recv_missing : List RelayMessage → Exec (Peer D) Unit
    recv_missing [] = do frame ← recv; pure tt
    recv_missing (frame ∷ rest) = do
      modify (λ s. record s { inbox = rest })
      is_end ← take_data frame
      if is_end then pure tt else recv_missing rest

    unfoldable pub sync_miss_data : Exec (Peer D) Unit
    sync_miss_data = do
      items ← on_store store.get_all_items
      latest ← latest_of_stations (items_by_station [] items)
      send (stations_items_latest (some latest))
      frames ← gets (λ s. s.inbox)
      recv_missing frames

    module _ (upstream_id : ℕ) where
      unfoldable pub run_downstream_bootstrap : Exec (Peer D) Unit
      unfolding expect_available expect_full_config full_batch
      run_downstream_bootstrap = do
        frame ← recv
        avail ← expect_available frame
        apply_available_items codec store upstream_id avail
        frame' ← recv
        batch ← expect_full_config frame'
        apply_full_config codec store upstream_id batch
        sync_miss_status batch.stations
        sync_miss_data

      -- An event that fails is logged, and the next applied.
      unfoldable pub apply_events : List RelayConfigEvent → Exec (Peer D) Unit
      apply_events [] = pure tt
      apply_events (evt ∷ rest) =
          ignoring (apply_config_event codec store upstream_id evt) (apply_events rest)

      unfoldable pub handle_frame : RelayMessage → Exec (Peer D) Unit
      handle_frame (config_batch batch) = apply_events batch.events
      handle_frame (status_event evt) = apply_status_event codec store evt
      handle_frame (data_batch batch) = apply_data_batch codec store batch
      handle_frame (available_items m) =
          ignoring (apply_available_items codec store upstream_id m) (pure tt)
      handle_frame (error_frame e) = if e.retryable then pure tt else raise (new e.message)
      handle_frame _ = pure tt

      ended : Result {0} RelayMessage → Exec (Peer D) Unit
      ended (ok frame) = pure tt
      ended (err e) = if is_eof e then pure tt else raise e

      unfoldable pub run_incremental : List RelayMessage → Exec (Peer D) Unit
      unfolding ended
      run_incremental [] = attempt recv ended
      run_incremental (frame ∷ rest) = do
        modify (λ s. record s { inbox = rest })
        handle_frame frame
        run_incremental rest

      -- `RunDownstream`, with an open connection.
      unfoldable pub run_downstream : String → Exec (Peer D) Unit
      run_downstream username = do
        run_downstream_handshake username
        run_downstream_bootstrap
        frames ← gets (λ s. s.inbox)
        run_incremental frames
