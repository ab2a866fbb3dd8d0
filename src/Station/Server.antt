-- ===== src/Station/Server.antt =====
-- tide_server/syncv2/station/server.go and registry.go: the life of a station session.
use tidegauge_backend.Prelude.{
  ℕ, String, List, [], ◌∷◌, Bool, true, false, ◌||◌, Option, none, some, lookup, insert, delete,
  ◌==◌, nat_keys, string_keys, if◌then◌else◌,
}
use tidegauge_backend.Types.{
  Uuid, UnixMs, Status, new, StringMapMap, StationInfo, DataTime, StationItem, StatusChange,
  RowIdItemStatus, StationStatus, no_status,
}
use tidegauge_backend.Wire.{
  StationMessage, client_hello, station_info, ClientHello, PbStationInfo, DataPoint, DataBatch,
  ItemStatusLog, is_gpio,
}
use tidegauge_backend.Text.{trim_space}
use tidegauge_backend.Exec.{Exec, ok, pure, raise, modify, ◌>>=◌, ◌>>◌, ignoring}
use tidegauge_backend.Station.{
  StationStore, Session, Notice, publish_miss_data, publish_realtime_data, publish_station_status,
  on_store, recv, notify,
}

-- internal/syncv2/station_info.go: the maps are copied entry by entry, so the contents are the same.
unfoldable pub pb_to_station_info : PbStationInfo → StationInfo
pb_to_station_info info = record {
  identifier = info.identifier;
  devices = info.devices;
  cameras = info.cameras;
}

unfoldable pub pb_to_item_status_log : ItemStatusLog → RowIdItemStatus
pb_to_item_status_log msg = record {
  row_id = msg.row_id;
  item_status = record {
    item_name = msg.item_name;
    change = record { status = msg.status; changed_at = msg.changed_at_unix_ms };
  };
}

-- What is published of a new point.
abbrev pub data_notice : Uuid → Bool → DataPoint → Notice
data_notice id replay point =
    let item : StationItem = record { station_id = id; item_name = point.item_name } in
    let sample : DataTime = record { value = point.value; millisecond = point.unix_ms } in
    if replay
    then publish_miss_data item sample
    else publish_realtime_data item sample (is_gpio point.kind)

abbrev no_devices : StringMapMap → Bool
no_devices [] = true
no_devices (d ∷ ds) = false

module _ {D : Type 0} where
  unfoldable pub check_hello : StationMessage → Exec (Session D) ClientHello
  check_hello (client_hello (some hello)) =
      if trim_space hello.station_identifier == ""
      then raise (new "station_identifier is required")
      else pure hello
  check_hello _ = raise (new "first frame must be client_hello")

  unfoldable pub recv_hello : Exec (Session D) ClientHello
  unfolding check_hello
  recv_hello = recv >>= check_hello

  unfoldable pub check_station_info : StationMessage → Exec (Session D) StationInfo
  unfolding pb_to_station_info
  check_station_info (station_info (some info)) =
      let ret = pb_to_station_info info in
      if ret.identifier == "" || no_devices ret.devices
      then raise (new "invalid station_info content")
      else pure ret
  check_station_info _ = raise (new "second frame must be station_info")

  unfoldable pub recv_station_info : Exec (Session D) StationInfo
  unfolding check_station_info
  recv_station_info = recv >>= check_station_info

  unfoldable pub loaded_or_stored : Uuid → ℕ → Option ℕ → Exec (Session D) Bool
  loaded_or_stored id conn (some other) s = (ok true, s)
  loaded_or_stored id conn none s = (ok false, record s { registry = insert id conn s.registry })

  -- `s.reg.LoadOrStore(stationID, conn)`: whether an entry was there.
  unfoldable pub load_or_store : Uuid → ℕ → Exec (Session D) Bool
  unfolding loaded_or_stored
  load_or_store id conn s = loaded_or_stored id conn (lookup id s.registry) s

  unfoldable pub registry_delete : Uuid → Exec (Session D) Unit
  registry_delete id = modify (λ s. record s { registry = delete id s.registry })

module _ {D : Type 0} (store : StationStore D) where
  -- `now` is what `time.Now()` returns.
  unfoldable pub update_station_status_and_notify :
      Uuid → String → Status → UnixMs → Exec (Session D) Unit
  unfolding on_store notify
  update_station_status_and_notify id identifier status now = do
    changed ← on_store (store.update_station_status id status now)
    let change : StatusChange = record { status = status; changed_at = now }
    let note : StationStatus = record { station_id = id; identifier = identifier; change = change }
    if changed then notify (publish_station_status note) else pure tt

  unfoldable pub save_point : Uuid → Bool → DataPoint → Exec (Session D) Unit
  save_point id replay point = do
    inserted ← on_store (store.save_data_history id point.item_name point.value point.unix_ms)
    if inserted then notify (data_notice id replay point) else pure tt

  -- One round of the loop over the points.
  unfoldable pub handle_point : Uuid → Bool → DataPoint → Exec (Session D) Unit
  handle_point id replay point =
      if is_gpio point.kind
      then ignoring (on_store (store.update_item_status id point.item_name no_status point.unix_ms))
          (save_point id replay point)
      else save_point id replay point

  unfoldable pub handle_points : Uuid → Bool → List DataPoint → Exec (Session D) Unit
  handle_points id replay [] = pure tt
  handle_points id replay (point ∷ rest) = do
    handle_point id replay point
    handle_points id replay rest

  unfoldable pub handle_data_batch : Uuid → DataBatch → Exec (Session D) Unit
  unfolding handle_points
  handle_data_batch id batch = handle_points id batch.replay batch.points
