-- ===== src/Relay/DbStore.antt =====
-- tide_server/syncv2/relay/store_db.go: the downstream's interface filled by the tables of the server's
-- database. Its methods on stations, devices, items and records are an argument here.
use tidegauge_backend.Prelude.{String, List, [], ◌∷◌, insert, string_keys}
use tidegauge_backend.Prelude.Int.{pos}
use tidegauge_backend.Types.{UnixMs}
use tidegauge_backend.Db.{Database}
use tidegauge_backend.Db.History.{save_data_history, get_items_latest, make_sure_table_exist}
use tidegauge_backend.Db.StatusLog.{
  update_station_status, update_item_status, get_latest_status_log_row_id, save_item_status_log,
  update_and_save_status_log,
}
use tidegauge_backend.Station.DbStore.{changed}
use tidegauge_backend.Relay.{DownstreamStore}

-- Each item with the time 0.
unfoldable pub name_zeros : List String → List (String × UnixMs) → List (String × UnixMs)
name_zeros [] m = m
name_zeros (name ∷ rest) m = name_zeros rest (insert name (pos 0) m)

abbrev pub db_downstream_store : DownstreamStore Database → DownstreamStore Database
db_downstream_store other = record other {
  update_station_status = λ id status at. changed (update_station_status id status at);
  latest_status_log_row_id = get_latest_status_log_row_id;
  save_item_status_log =
      λ id row item status at. changed (save_item_status_log id row item status at);
  update_and_save_status_log =
      λ id row item status at. changed (update_and_save_status_log id row item status at);
  update_item_status = λ id item status at. changed (update_item_status id item status at);
  items_latest = λ id names. get_items_latest id (name_zeros names []);
  ensure_data_table = make_sure_table_exist;
  save_data_history = λ id item value at. changed (save_data_history id item value at);
}
