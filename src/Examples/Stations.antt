-- ===== src/Examples/Stations.antt =====
-- The theorems on the station server and the database at a concrete database and session.
use tidegauge_backend.Prelude.{none, ◌==◌, string_keys}
use tidegauge_backend.Text.{trim_space}
use tidegauge_backend.Client.{Deps, Link}
use tidegauge_backend.Client.Session.{handle_command}
use tidegauge_backend.Wire.{snapshot_request}
use tidegauge_backend.Station.Snapshot.{Commands, received, request_snapshot}
use tidegauge_backend.Station.Snapshot.Delivered.{answer, request_snapshot-handle_command}
use tidegauge_backend.Prelude.{
  ◌⊎◌, String, List, [], ◌∷◌, ◌++◌, true, false, some, ◌≡◌, refl, string_keys, nat_keys,
  if◌then◌else◌, lookup, map,
}
use tidegauge_backend.Prelude.Int.{pos}
use tidegauge_backend.Types.{Uuid, UnixMs, DataTime, StationInfo, eof}
use tidegauge_backend.Wire.{
  client_hello, station_info, data_batch, DataBatch, DataPoint, normal_kind,
}
use tidegauge_backend.Exec.{Exec, ok, err, pure, ◌>>=◌, ignoring}
use tidegauge_backend.Db.{Database, row_keys, contains_illegal_character}
use tidegauge_backend.Db.History.{save_data_history, get_items_latest}
use tidegauge_backend.Db.History.Saved.{
  stored, key_of, same_place, first_of, missing, save_data_history-stored,
}
use tidegauge_backend.Db.History.Arrivals.{under, brought, kept_or, fresh}
use tidegauge_backend.Db.History.Range.{get_data_history, Between, get_data_history-stored}
use tidegauge_backend.Db.History.Latest.{IsLatest, get_items_latest_lem}
use tidegauge_backend.Db.StatusLog.{
  update_and_save_status_log, save_item_status_log, update_item_status,
}
use tidegauge_backend.Db.StatusLog.Replayed.{
  LogCall, updates_and_saves_log, updates_item, run_log_calls, update_and_save_status_log-again,
}
use tidegauge_backend.Station.{Session, on_store, notify}
use tidegauge_backend.Station.Server.{
  handle_data_batch, handle_points, handle_point, save_point, data_notice,
}
use tidegauge_backend.Station.DbStore.{db_store, changed}
use tidegauge_backend.Station.Stream.{stream_station}
use tidegauge_backend.Station.Registered.{registry-stream_station}
use tidegauge_backend.Station.Refused.{Accepted, Refused, stream_station-refused}
use tidegauge_backend.Station.Ingest.{handle_data_batch-fresh, handle_data_batch-again}

-- A station with one item table, one row in it.
abbrev small_db : Database
small_db = record {
  stations =
      (
        4,
        record {
          identifier = "tide1";
          ip_addr = "";
          status = "NoStatus";
          status_changed_at = pos 0;
          upstream = false;
          deleted = false;
        },
      )
      ∷ [];
  items = [];
  status_log = [];
  tables = ("level", (record { station_id = 4; place = pos 10 }, 100) ∷ []) ∷ [];
  rpi_log = [];
}

-- `SyncStationInfo` that writes nothing.
abbrev no_sync : Uuid → StationInfo → Exec Database Unit
no_sync id info db = (ok tt, db)

abbrev level_at : UnixMs → DataPoint
level_at t = record { item_name = "level"; value = 101; unix_ms = t; kind = normal_kind }

abbrev small_batch : DataBatch
small_batch = record {
  replay = true;
  points = level_at (pos 10) ∷ level_at (pos 11) ∷ level_at (pos 11) ∷ [];
}

abbrev connected : Session Database
connected = record {
  store = small_db;
  inbox =
      client_hello (some (record { station_identifier = "tide1"; protocol_version = "v2" }))
      ∷ station_info (
          some (record {
            identifier = "tide1";
            devices = ("gauge", ("water", "level") ∷ []) ∷ [];
            cameras = [];
          }))
      ∷ data_batch small_batch
      ∷ [];
  closed = eof;
  faults = [];
  outbox = [];
  notices = [];
  registry = [];
}

registry-stream_station_example :
    (stream_station (db_store no_sync) 1 (pos 20) (pos 30) "10.0.0.1" connected).1.registry ≡ []
registry-stream_station_example =
    registry-stream_station (db_store no_sync) 1 (pos 20) (pos 30) "10.0.0.1" connected

abbrev already_there : Session Database
already_there = record connected { registry = (4, 9) ∷ [] }

stream_station-refused_example :
    Accepted already_there
    ⊎ Refused already_there
        (stream_station (db_store no_sync) 1 (pos 20) (pos 30) "10.0.0.1" already_there)
stream_station-refused_example =
    stream_station-refused no_sync 1 (pos 20) (pos 30) "10.0.0.1" already_there

save_data_history-stored_example :
    ((station' : Uuid) (item' : String) (at' : UnixMs)
      → stored (save_data_history 4 "level" 101 (pos 10) small_db).1 station' item' at' ≡ (
          if same_place "level" (key_of 4 (pos 10)) item' (key_of station' at')
          then some (first_of (stored small_db 4 "level" (pos 10)) 101)
          else stored small_db station' item' at'))
    × (0 ≡ missing (stored small_db 4 "level" (pos 10)))
unfolding save_data_history
save_data_history-stored_example = save_data_history-stored 4 "level" 101 (pos 10) small_db 0 refl

-- Saved out of order, with a row of another station between.
abbrev long_db : Database
long_db = record small_db {
  tables =
      (
        "level",
        (key_of 4 (pos 30), 103)
            ∷ (key_of 5 (pos 20), 200)
            ∷ (key_of 4 (pos 20), 102)
            ∷ (key_of 4 (pos 10), 101)
            ∷ [],
      )
      ∷ [];
}

get_data_history-stored_example :
    (ds : List DataTime) × ((get_data_history 4 "level" (pos 10) (pos 0) long_db ≡ (ok ds, long_db))
      × Between long_db 4 "level" (pos 10) (pos 0) ds)
unfolding contains_illegal_character
get_data_history-stored_example =
    get_data_history-stored 4 "level" (pos 10) (pos 0)
      ((key_of 4 (pos 30), 103)
        ∷ (key_of 5 (pos 20), 200)
        ∷ (key_of 4 (pos 20), 102)
        ∷ (key_of 4 (pos 10), 101)
        ∷ [])
      long_db refl refl refl

abbrev asked : List (String × UnixMs)
asked = ("level", pos 0) ∷ []

abbrev answers : List (String × UnixMs)
answers = ("level", pos 10) ∷ []

get_items_latest_lem_example :
    ((get_items_latest 4 asked small_db).1 ≡ small_db)
    × ((t : UnixMs) × (lookup "level" answers ≡ some t) × IsLatest small_db 4 "level" (pos 0) t)
unfolding get_items_latest
get_items_latest_lem_example =
    get_items_latest_lem 4 asked answers small_db "level" (pos 0) refl refl

handled : (handle_data_batch (db_store no_sync) 4 small_batch connected).0 ≡ ok tt
unfolding handle_data_batch handle_points handle_point save_point on_store notify changed
    save_data_history ignoring ◌>>=◌ pure
handled = refl

handle_data_batch-fresh_example :
    let t = (handle_data_batch (db_store no_sync) 4 small_batch connected).1 in
    ((station : Uuid) (item_name : String) (at : UnixMs)
      → stored t.store station item_name at
        ≡ kept_or
            (stored small_db station item_name at)
            (brought (under 4 small_batch.points) station item_name at))
    × (t.notices
        ≡ []
          ++ map (λ a. data_notice a.0 true a.1) (fresh small_db [] (under 4 small_batch.points)))
handle_data_batch-fresh_example =
    handle_data_batch-fresh no_sync 4 true small_batch connected refl handled

abbrev handled_once : Session Database
handled_once = (handle_data_batch (db_store no_sync) 4 small_batch connected).1

handled_again : (handle_data_batch (db_store no_sync) 4 small_batch handled_once).0 ≡ ok tt
unfolding handle_data_batch handle_points handle_point save_point on_store notify changed
    save_data_history ignoring ◌>>=◌ pure
handled_again = refl

handle_data_batch-again_example :
    ((handle_data_batch (db_store no_sync) 4 small_batch handled_once).1.notices
      ≡ handled_once.notices)
    × ((station : Uuid) (item_name : String) (at : UnixMs)
        → stored
            (handle_data_batch (db_store no_sync) 4 small_batch handled_once).1.store
            station
            item_name
            at
          ≡ stored handled_once.store station item_name at)
handle_data_batch-again_example =
    handle_data_batch-again no_sync 4 true small_batch connected handled_once refl
      (λ station item_name at h. h) handled handled_again

logged_once : (update_and_save_status_log 4 (pos 7) "level" "Normal" (pos 20) small_db).0 ≡ ok 1
unfolding update_and_save_status_log save_item_status_log update_item_status ◌>>=◌ pure
logged_once = refl

-- Meanwhile a newer status of the item is saved.
abbrev meanwhile : List LogCall
meanwhile =
    updates_and_saves_log 4 (pos 8) "level" "Abnormal" (pos 30)
    ∷ updates_item 4 "level" "Normal" (pos 40)
    ∷ []

update_and_save_status_log-again_example :
    let later =
      run_log_calls meanwhile
        (update_and_save_status_log 4 (pos 7) "level" "Normal" (pos 20) small_db).1 in
    update_and_save_status_log 4 (pos 7) "level" "Normal" (pos 20) later ≡ (ok 0, later)
update_and_save_status_log-again_example =
    update_and_save_status_log-again 4 (pos 7) "level" "Normal" (pos 20) 1 meanwhile small_db
      logged_once

abbrev picture_deps : Deps
picture_deps = record {
  station_info = record { identifier = "tide1"; devices = []; cameras = "cam" ∷ [] };
  get_data_history = λ name t. err eof;
  get_item_status_log_after = λ row. err eof;
  get_camera = some (λ name. some ("http://cam", "user", "secret"));
  snapshot = some (λ url username password. ok (7 ∷ 8 ∷ []));
}

abbrev open_link : Link
open_link = record {
  inbox = [];
  closed = eof;
  faults = [];
  outbox = [];
  subscribed = false;
  ingest_locked = false;
}

abbrev commands : Commands
commands = record {
  registry = (4, 9) ∷ [];
  open_fault = none;
  send_fault = none;
  open_streams = 0;
  sent = [];
}

cam-named : (trim_space "cam" == "") ≡ false
unfolding trim_space
cam-named = refl

request_snapshot-handle_command_example :
    (handle_command (λ e. "failed") picture_deps (snapshot_request (some "cam")) open_link ≡ (
      ok tt,
      record open_link {
        outbox = open_link.outbox ++ answer (λ e. "failed") picture_deps "cam" ∷ [];
      },
    ))
    × (request_snapshot 4 "cam" 30
          (received (ok (answer (λ e. "failed") picture_deps "cam")) ∷ [])
          commands
        ≡ (
          ok (some (ok (7 ∷ 8 ∷ []))),
          record commands { sent = commands.sent ++ snapshot_request (some "cam") ∷ [] },
        ))
request_snapshot-handle_command_example =
    request_snapshot-handle_command (λ e. "failed") picture_deps open_link 4 9 "cam" 30 [] commands
      (λ name. some ("http://cam", "user", "secret")) (λ url username password. ok (7 ∷ 8 ∷ []))
      "http://cam" "user" "secret" 7 (8 ∷ []) cam-named refl refl refl refl refl refl refl refl refl
