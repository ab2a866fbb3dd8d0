-- ===== src/Relay/Events.antt =====
-- tide_server/syncv2/relay/apply.go: `applyConfigEvent`, `applyStatusEvent` and `applyDataBatch`. The
-- edit lock is held during a configuration event, which is one step here.
use tidegauge_backend.Prelude.{
  ℕ, String, List, [], ◌∷◌, Bool, true, false, ◌||◌, Option, none, some, ◌==◌, string_keys,
  if◌then◌else◌,
}
use tidegauge_backend.Types.{Uuid, DataTime, StationItem, StatusChange, no_status}
use tidegauge_backend.Wire.{DataPoint, is_gpio}
use tidegauge_backend.Exec.{Exec, Result, ok, err, pure, raise, ◌>>=◌, ◌>>◌, ignoring}
use tidegauge_backend.Relay.{
  DownstreamStore, Codec, Peer, Notice, on_store, on_change, notify, publish_config, publish_status,
  broadcast_available_change, publish_miss_data, publish_data, payload_body, station_status_body,
  item_status_body,
}
use tidegauge_backend.Relay.Wire.{RelayConfigEvent, RelayStatusEvent, RelayDataBatch}

-- What is published of a point that is new.
abbrev pub data_notice : String → Uuid → DataPoint → Notice
data_notice data_type id point =
    let item : StationItem = record { station_id = id; item_name = point.item_name } in
    let sample : DataTime = record { value = point.value; millisecond = point.unix_ms } in
    if data_type == "MissData"
    then publish_miss_data item sample
    else publish_data item sample (is_gpio point.kind)

abbrev pub no_points : List DataPoint → Bool
no_points [] = true
no_points (p ∷ ps) = false

module _ {D : Type 0} (codec : Codec) (store : DownstreamStore D) where
  -- `json.Unmarshal` into a variable, and what is done with its value.
  unfoldable pub reading : {A : Type 0} → Result A → (A → Exec (Peer D) Unit) → Exec (Peer D) Unit
  reading (ok a) f = f a
  reading (err e) f = raise e

  apply_changed : RelayConfigEvent → Exec D Bool → Exec (Peer D) Unit
  apply_changed evt m = on_change m (publish_config evt.type_name (payload_body evt.payload))

  apply_status : RelayConfigEvent → Exec D Bool → Exec (Peer D) Unit
  apply_status evt m = on_change m (publish_status evt.type_name (payload_body evt.payload))

  unfoldable pub apply_config_event : ℕ → RelayConfigEvent → Exec (Peer D) Unit
  unfolding apply_changed apply_status
  apply_config_event upstream_id evt =
      if evt.type_name == "SyncStation"
      then reading (codec.read_station evt.payload)
          (λ st. apply_changed evt (store.sync_station upstream_id st))
      else if evt.type_name == "SyncStationCannotEdit"
      then reading (codec.read_station evt.payload)
          (λ st. apply_changed evt (store.sync_station_cannot_edit st.id st.cameras))
      else if evt.type_name == "DelUpstreamStation"
      then reading (codec.read_station_id evt.payload)
          (λ id. apply_changed evt (store.del_upstream_station upstream_id id))
      else if evt.type_name == "SyncDevice"
      then reading (codec.read_device evt.payload) (λ d. apply_changed evt (store.sync_device d))
      else if evt.type_name == "DelDevice"
      then reading (codec.read_device evt.payload)
          (λ d. apply_changed evt (store.del_device d.station_id d.name))
      else if evt.type_name == "SyncItem"
      then reading (codec.read_item evt.payload) (λ i. apply_changed evt (store.sync_item i))
      else if evt.type_name == "DelItem"
      then reading (codec.read_item evt.payload)
          (λ i. apply_changed evt (store.del_item i.station_id i.name))
      else if evt.type_name == "EditDeviceRecord"
      then reading (codec.read_device_record evt.payload)
          (λ dr. apply_changed evt (store.sync_device_record dr))
      else if evt.type_name == "UpdateStationStatus"
      then reading (codec.read_station_status evt.payload) (λ b.
        apply_status evt
          (store.update_station_status b.station_id b.change.status b.change.changed_at))
      else if (evt.type_name == "MissItemStatus") || (evt.type_name == "UpdateItemStatus")
      then reading (codec.read_item_status evt.payload) (λ b. apply_status evt (
          store.update_and_save_status_log b.station_id b.log.row_id b.log.item_status.item_name
            b.log.item_status.change.status b.log.item_status.change.changed_at))
      else if evt.type_name == "update_available"
      then reading (codec.read_available evt.payload) (λ body.
        on_change (store.update_available_items upstream_id body) (broadcast_available_change body))
      else pure tt

  -- An error of the database is dropped.
  dropping : Exec (Peer D) Unit → Exec (Peer D) Unit
  dropping m = ignoring m (pure tt)

  status_event_at : RelayStatusEvent → Option Uuid → Exec (Peer D) Unit
  unfolding dropping
  status_event_at evt none = pure tt
  status_event_at evt (some id) =
      let change : StatusChange = record {
        status = evt.status;
        changed_at = evt.changed_at_unix_ms;
      } in
      if evt.item_name == ""
      then dropping (
          on_change (store.update_station_status id evt.status evt.changed_at_unix_ms) (
            publish_status "UpdateStationStatus" (
              station_status_body
                (record { station_id = id; identifier = evt.identifier; change = change }))))
      else dropping (
          on_change
            (store.update_and_save_status_log id evt.row_id evt.item_name evt.status
              evt.changed_at_unix_ms)
            (publish_status "UpdateItemStatus" (
              item_status_body (record {
                station_id = id;
                identifier = evt.identifier;
                log = record {
                  row_id = evt.row_id;
                  item_status = record { item_name = evt.item_name; change = change };
                };
              }))))

  unfoldable pub apply_status_event : RelayStatusEvent → Exec (Peer D) Unit
  unfolding status_event_at dropping
  apply_status_event evt = status_event_at evt (codec.parse_uuid evt.station_id)

  -- The rest of the loop's body for a point that was inserted.
  unfoldable pub publish_point : String → Uuid → DataPoint → Exec (Peer D) Unit
  publish_point data_type id point = do
    if is_gpio point.kind
        then ignoring
            (on_store (store.update_item_status id point.item_name no_status point.unix_ms))
            (pure tt)
        else pure tt
    notify (data_notice data_type id point)

  unfoldable pub apply_points : String → Uuid → List DataPoint → Exec (Peer D) Unit
  apply_points data_type id [] = pure tt
  apply_points data_type id (point ∷ rest) = do
    on_store (store.ensure_data_table point.item_name)
    inserted ← on_store (store.save_data_history id point.item_name point.value point.unix_ms)
    if inserted then publish_point data_type id point else pure tt
    apply_points data_type id rest

  apply_points_at : RelayDataBatch → Option Uuid → Exec (Peer D) Unit
  unfolding dropping
  apply_points_at batch none = pure tt
  apply_points_at batch (some id) = dropping (apply_points batch.data_type id batch.points)

  unfoldable pub apply_data_batch : RelayDataBatch → Exec (Peer D) Unit
  unfolding apply_points_at dropping
  apply_data_batch batch =
      if (batch.station_id == "") || no_points batch.points
      then pure tt
      else apply_points_at batch (codec.parse_uuid batch.station_id)
