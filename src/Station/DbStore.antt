-- ===== src/Station/DbStore.antt =====
-- tide_server/syncv2/station/store_db.go: the interface filled by the database. How station
-- information is written (`SyncStationInfo`) is an argument here.
use tidegauge_backend.Prelude.{ℕ, String, List, [], ◌∷◌, Bool, insert, string_keys, ltb}
use tidegauge_backend.Prelude.Int.{pos}
use tidegauge_backend.Types.{Uuid, UnixMs, StringMapMap, StationInfo}
use tidegauge_backend.Exec.{Exec, pure, ◌>>=◌}
use tidegauge_backend.Db.{Database}
use tidegauge_backend.Db.History.{save_data_history, get_items_latest}
use tidegauge_backend.Db.StatusLog.{
  update_station_status, update_item_status, get_latest_status_log_row_id, save_item_status_log,
  update_and_save_status_log, save_rpi_status,
}
use tidegauge_backend.Db.Stations.{get_local_station_id_by_identifier, edit_station_not_sync}
use tidegauge_backend.Station.{StationStore}

-- `return n > 0, err`.
unfoldable pub changed : Exec Database ℕ → Exec Database Bool
unfolding ◌>>=◌
changed m = do n ← m; pure (ltb 0 n)

item_zeros : List (String × String) → List (String × UnixMs) → List (String × UnixMs)
item_zeros [] m = m
item_zeros ((item_type, item_name) ∷ rest) m = item_zeros rest (insert item_name (pos 0) m)

-- Each item of each device, with the time 0.
unfoldable pub zeros : StringMapMap → List (String × UnixMs) → List (String × UnixMs)
unfolding item_zeros
zeros [] m = m
zeros ((device, items) ∷ rest) m = zeros rest (item_zeros items m)

abbrev pub db_store : (Uuid → StationInfo → Exec Database Unit) → StationStore Database
db_store sync = record {
  station_id_by_identifier = get_local_station_id_by_identifier;
  set_station_ip = edit_station_not_sync;
  items_latest = λ id devices. get_items_latest id (zeros devices []);
  latest_status_log_row_id = get_latest_status_log_row_id;
  update_station_status = λ id status at. changed (update_station_status id status at);
  save_rpi_status = save_rpi_status;
  update_item_status = λ id item status at. changed (update_item_status id item status at);
  save_data_history = λ id item value at. changed (save_data_history id item value at);
  save_item_status_log =
      λ id row item status at. changed (save_item_status_log id row item status at);
  update_and_save_status_log =
      λ id row item status at. changed (update_and_save_status_log id row item status at);
  sync_station_info = sync;
}
