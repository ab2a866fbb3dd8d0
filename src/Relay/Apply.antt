-- ===== src/Relay/Apply.antt =====
-- tide_server/syncv2/relay/apply.go: `applyAvailableItems` and `applyFullConfig`. A Go set that the code
-- fills is the list of what was put in.
pub mod Deletions
use tidegauge_backend.Prelude.{
  ℕ, String, List, [], ◌∷◌, Bool, true, false, Option, none, some, map, insert, contains, nat_keys,
  string_keys, if◌then◌else◌,
}
use tidegauge_backend.Prelude.Int.{ℤ}
use tidegauge_backend.Types.{Uuid, UuidStringsMap, StationItem, StationStatus, station_item_keys}
use tidegauge_backend.Exec.{Exec, Result, ok, err, pure, ◌>>=◌, ◌>>◌, attempt}
use tidegauge_backend.Relay.{
  Station, Device, Item, DeviceRecord, DownstreamStore, Codec, Peer, Notice, on_store, on_change,
  publish_config, broadcast_available_change, station_body, station_id_body, device_body, item_body,
  device_record_body, station_status_body,
}
use tidegauge_backend.Relay.Wire.{
  RelayStationFull, RelayDevice, RelayItem, RelayDeviceRecord, RelayConfigBatch,
}
use tidegauge_backend.Relay.Convert.{
  or_nil, proto_to_db_station, proto_to_db_device, proto_to_db_item, proto_to_db_device_record,
}
use Prim.Native.String.{◌++◌ as ◌+++◌}

-- `v, _ := f()`: nothing where it fails.
abbrev pub or_empty : {A : Type 0} → Result (List A) → List A
or_empty (ok xs) = xs
or_empty (err _) = []

module _ (codec : Codec) where
  put_available : Option Uuid → List String → UuidStringsMap → UuidStringsMap
  put_available none names body = body
  put_available (some id) names body = insert id names body

  unfoldable pub available_body : UuidStringsMap → List (String × List String) → UuidStringsMap
  unfolding put_available
  available_body body [] = body
  available_body body ((id, names) ∷ rest) =
      available_body (put_available (codec.parse_uuid id) names body) rest

  -- `devStationID.String()+pbDev.Name`.
  unfoldable pub device_key : Uuid → String → String
  device_key station_id name = codec.show_uuid station_id +++ name

  unfoldable pub new_device_set : List RelayDevice → List String
  new_device_set pbs = map (λ pb. device_key (or_nil (codec.parse_uuid pb.station_id)) pb.name) pbs

  unfoldable pub new_item_set : List RelayItem → List StationItem
  new_item_set pbs =
      map
        (λ pb. record { station_id = or_nil (codec.parse_uuid pb.station_id); item_name = pb.name })
        pbs

  put_station : Option Uuid → List Uuid → List Uuid
  put_station none set = set
  put_station (some id) set = id ∷ set

  unfoldable pub new_station_set : List RelayStationFull → List Uuid
  unfolding put_station
  new_station_set [] = []
  new_station_set (pb ∷ rest) = put_station (codec.parse_uuid pb.id) (new_station_set rest)

module _ {D : Type 0} (codec : Codec) (store : DownstreamStore D) (upstream_id : ℕ) where
  unfoldable pub apply_available_items : List (String × List String) → Exec (Peer D) Unit
  apply_available_items avail =
      let body = available_body codec [] avail in
      on_change (store.update_available_items upstream_id body) (broadcast_available_change body)

  -- The two loops over the devices of a station: the new ones are written, the old ones that are not
  -- among them deleted.
  unfoldable pub sync_devices : List RelayDevice → Exec (Peer D) Unit
  sync_devices [] = pure tt
  sync_devices (pb ∷ rest) = do
    let device = proto_to_db_device codec pb (or_nil (codec.parse_uuid pb.station_id))
    on_change (store.sync_device device) (publish_config "SyncDevice" (device_body device))
    sync_devices rest

  unfoldable pub del_devices : List String → List Device → Exec (Peer D) Unit
  del_devices set [] = pure tt
  del_devices set (d ∷ rest) = do
    if contains (device_key codec d.station_id d.name) set
        then pure tt
        else on_change (store.del_device d.station_id d.name)
            (publish_config "DelDevice" (device_body d))
    del_devices set rest

  -- Likewise for the items.
  unfoldable pub sync_items : List RelayItem → Exec (Peer D) Unit
  sync_items [] = pure tt
  sync_items (pb ∷ rest) = do
    let item = proto_to_db_item codec pb
    on_change (store.sync_item item) (publish_config "SyncItem" (item_body item))
    sync_items rest

  unfoldable pub del_items : List StationItem → List Item → Exec (Peer D) Unit
  del_items set [] = pure tt
  del_items set (i ∷ rest) = do
    if contains (record { station_id = i.station_id; item_name = i.name }) set
        then pure tt
        else on_change (store.del_item i.station_id i.name) (publish_config "DelItem" (item_body i))
    del_items set rest

  -- The body of the loop over the stations, for one whose UUID is read.
  unfoldable pub apply_station : RelayStationFull → Uuid → Exec (Peer D) Unit
  apply_station pb id = do
    let station = proto_to_db_station codec pb
    old_devices ← attempt (on_store (store.get_devices id)) (λ r. pure (or_empty r))
    old_items ← attempt (on_store (store.get_items id)) (λ r. pure (or_empty r))
    on_change (store.sync_station upstream_id station)
        (publish_config "SyncStation" (station_body station))
    on_change (store.sync_station_cannot_edit id station.cameras)
        (publish_config "SyncStationCannotEdit" (station_body station))
    on_change (store.update_station_status id pb.status pb.status_changed_at_ms) (
        publish_config "UpdateStationStatus" (
          station_status_body (record {
            station_id = id;
            identifier = pb.identifier;
            change = record { status = pb.status; changed_at = pb.status_changed_at_ms };
          })))
    sync_devices pb.devices
    del_devices (new_device_set codec pb.devices) old_devices
    sync_items pb.items
    del_items (new_item_set codec pb.items) old_items

  apply_parsed : Option Uuid → RelayStationFull → Exec (Peer D) Unit
  apply_parsed none pb = pure tt
  apply_parsed (some id) pb = apply_station pb id

  unfoldable pub apply_stations : List RelayStationFull → Exec (Peer D) Unit
  unfolding apply_parsed
  apply_stations [] = pure tt
  apply_stations (pb ∷ rest) = do apply_parsed (codec.parse_uuid pb.id) pb; apply_stations rest

  unfoldable pub del_stations : List Uuid → List Station → Exec (Peer D) Unit
  del_stations set [] = pure tt
  del_stations set (station ∷ rest) = do
    if contains station.id set
        then pure tt
        else on_change (store.del_upstream_station upstream_id station.id)
            (publish_config "DelUpstreamStation" (station_id_body station.id))
    del_stations set rest

  unfoldable pub sync_device_records : List RelayDeviceRecord → Exec (Peer D) Unit
  sync_device_records [] = pure tt
  sync_device_records (pb ∷ rest) = do
    let dr = proto_to_db_device_record codec pb
    on_change (store.sync_device_record dr)
        (publish_config "EditDeviceRecord" (device_record_body dr))
    sync_device_records rest

  unfoldable pub apply_full_config : RelayConfigBatch → Exec (Peer D) Unit
  apply_full_config batch = do
    old_stations ← on_store (store.get_stations_by_upstream_id upstream_id)
    apply_stations batch.stations
    del_stations (new_station_set codec batch.stations) old_stations
    sync_device_records batch.device_records
