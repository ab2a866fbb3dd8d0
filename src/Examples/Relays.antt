-- ===== src/Examples/Relays.antt =====
-- The theorems on the relay at concrete servers. A UUID is written in unary here.
use tidegauge_backend.Prelude.{
  ℕ, zero, suc, Bool-cases, inl, inr, ap, String, List, [], ◌∷◌, ◌++◌, true, false, Option, none,
  some, ◌≡◌, refl, lookup, map, string_keys, ◌==◌,
}
use tidegauge_backend.Prelude.Int.{ℤ, pos}
use tidegauge_backend.Types.{Uuid, UnixMs, StationItem, DataTime, UuidStringsMap, eof}
use tidegauge_backend.Wire.{DataPoint, normal_kind}
use tidegauge_backend.Exec.{Exec, ok, err, pure, attempt, ◌>>=◌}
use tidegauge_backend.Relay.{
  Station, Item, StationFullInfo, DownstreamStore, UpstreamStore, Codec, Peer, on_store, notify,
  on_change,
}
use tidegauge_backend.Relay.Wire.{RelayConfigBatch, stations_items_latest}
use tidegauge_backend.Relay.Convert.{db_station_full_to_proto}
use tidegauge_backend.Relay.Convert.RoundTrip.{
  relayed, read_back, read_back-db_station_full_to_proto,
}
use tidegauge_backend.Relay.Apply.{
  apply_full_config, new_station_set, apply_stations, apply_station, del_stations, sync_devices,
  sync_items, del_devices, del_items, sync_device_records,
}
use tidegauge_backend.Relay.Apply.Deletions.{logged, absent, apply_full_config-absent}
use tidegauge_backend.Relay.Upstream.Frames.{stations_map, end_of_data}
use tidegauge_backend.Relay.Upstream.Frames.Permitted.{AllTopics, stations_map-AllTopics}
use tidegauge_backend.Relay.Upstream.{handle_miss_data_sync}
use tidegauge_backend.Relay.Upstream.History.{missing, frame_of, handle_miss_data_sync-missing}
use tidegauge_backend.Relay.Upstream.{Auth, normal_user, stream_relay}
use tidegauge_backend.Relay.Upstream.Login.{IsHello, outbox-stream_relay}
use tidegauge_backend.Relay.Wire.{downstream_hello}
use tidegauge_backend.Prelude.{◌⊎◌}
use tidegauge_backend.Relay.CatchUp.{points_of, HasTaken, recv_missing-handle_miss_data_sync}
use tidegauge_backend.Relay.Downstream.Saved.{arrivals, AllLegal}
use tidegauge_backend.Relay.DbStore.{db_downstream_store}
use tidegauge_backend.Db.{Database, contains_illegal_character}
use tidegauge_backend.Relay.Downstream.{save_points, recv_missing}
use tidegauge_backend.Relay.Downstream.Missing.{batch_frame, save_all, recv_missing-save_all}

pub show_marks : ℕ → String
show_marks zero = "|"
show_marks (suc n) = String.◌∷◌ "|" (show_marks n)

abbrev one_more : Option ℕ → Option ℕ
one_more none = some 0
one_more (some n) = some (suc n)

pub parse_marks : String → Option ℕ
parse_marks String.[] = none
parse_marks (String.◌∷◌ c s) = one_more (parse_marks s)

pub parse_marks-show_marks : (id : Uuid) → parse_marks (show_marks id) ≡ some id
unfolding parse_marks show_marks
parse_marks-show_marks zero = refl
parse_marks-show_marks (suc n) = ap one_more (parse_marks-show_marks n)

pub show_marks-named : (id : Uuid) → (show_marks id == "") ≡ false
unfolding show_marks
show_marks-named zero = refl
show_marks-named (suc n) = elim (Bool-cases (show_marks (suc n) == "")) [
  | inl e ↦ absurd (cc ((string_keys.beq_iff (show_marks (suc n)) "").0 e))
  | inr e ↦ e
]

-- No JSON is read.
abbrev pub marks : Codec
marks = record {
  parse_uuid = parse_marks;
  show_uuid = show_marks;
  read_station = λ t. err eof;
  read_station_id = λ t. err eof;
  read_device = λ t. err eof;
  read_item = λ t. err eof;
  read_device_record = λ t. err eof;
  read_station_status = λ t. err eof;
  read_item_status = λ t. err eof;
  read_available = λ t. err eof;
  write_item_status = λ i. err eof;
}

abbrev station_at : Uuid → Station
station_at id = record {
  id = id;
  identifier = "tide1";
  name = "Tide 1";
  ip_addr = "";
  location = "{}";
  partner = "{}";
  cameras = "[]";
  status = "Normal";
  status_changed_at = pos 10;
  upstream = false;
}

abbrev level_item : Item
level_item = record {
  station_id = 4;
  name = "level";
  type_name = "water";
  device_name = "gauge";
  status = "Normal";
  status_changed_at = pos 10;
  available = true;
}

abbrev full_info : StationFullInfo
full_info = record {
  station = station_at 4;
  items = level_item ∷ [];
  devices = record { station_id = 4; name = "gauge"; specs = "{}"; last_maintenance = pos 5 } ∷ [];
}

read_back-db_station_full_to_proto_example :
    read_back marks (db_station_full_to_proto marks full_info)
    ≡ record full_info { devices = map relayed full_info.devices }
read_back-db_station_full_to_proto_example =
    read_back-db_station_full_to_proto marks parse_marks-show_marks full_info

abbrev topics : List StationItem
topics = record { station_id = 4; item_name = "level" } ∷ []

abbrev all_items : List StationItem
all_items =
    record { station_id = 4; item_name = "level" }
    ∷ record { station_id = 4; item_name = "secret" }
    ∷ []

stations_map-AllTopics_example :
    AllTopics marks topics
      (show_marks 4)
      (lookup (show_marks 4) (stations_map marks (some topics) [] all_items))
stations_map-AllTopics_example = stations_map-AllTopics marks topics all_items (show_marks 4)

abbrev two_rows : Uuid → String → UnixMs → List DataTime
two_rows id name t =
    record { value = 100; millisecond = pos 11 } ∷ record { value = 101; millisecond = pos 12 } ∷ []

abbrev upstream_store : UpstreamStore
upstream_store = record {
  get_available_items = ok all_items;
  get_stations_full_info = ok (full_info ∷ []);
  get_device_records = ok [];
  get_item_status_logs = λ id row. ok [];
  get_items_all_stations = ok (level_item ∷ []);
  get_data_history = λ id name t. ok (two_rows id name t);
}

-- A database that is the number of its writes.
abbrev writes : {A : Type 0} → A → Exec ℕ A
writes a n = (ok a, suc n)

abbrev reads_from : {A : Type 0} → A → Exec ℕ A
reads_from a n = (ok a, n)

abbrev pub downstream_store : DownstreamStore ℕ
downstream_store = record {
  update_available_items = λ u items. writes true;
  get_stations_by_upstream_id = λ u. reads_from (station_at 4 ∷ station_at 5 ∷ []);
  get_devices = λ id. reads_from [];
  get_items = λ id. reads_from [];
  sync_station = λ u st. writes true;
  sync_station_cannot_edit = λ id cameras. writes true;
  del_upstream_station = λ u id. writes true;
  update_station_status = λ id status t. writes true;
  sync_device = λ d. writes true;
  del_device = λ id name. writes true;
  sync_item = λ i. writes true;
  del_item = λ id name. writes true;
  sync_device_record = λ dr. writes true;
  latest_status_log_row_id = λ id. reads_from (pos 0);
  save_item_status_log = λ id row name status t. writes true;
  update_and_save_status_log = λ id row name status t. writes true;
  update_item_status = λ id name status t. writes true;
  get_all_items = reads_from [];
  items_latest = λ id names. reads_from [];
  ensure_data_table = λ name. writes tt;
  save_data_history = λ id name value t. writes true;
}

abbrev pub peer_with : {D : Type 0} → D → Peer D
peer_with d = record {
  store = d;
  inbox = [];
  closed = eof;
  faults = [];
  outbox = [];
  notices = [];
  subscription = none;
}

abbrev pub quiet : Peer ℕ
quiet = peer_with 0

abbrev known : List (String × List (String × ℤ))
known = (show_marks 4, ("level", pos 10) ∷ []) ∷ []

abbrev permitted : UuidStringsMap
permitted = (4, "level" ∷ []) ∷ []

handle_miss_data_sync-missing_example :
    handle_miss_data_sync marks upstream_store
      (some permitted)
      (record quiet { inbox = stations_items_latest (some known) ∷ [] })
    ≡ (
      ok tt,
      record quiet {
        outbox =
            []
            ++ (map (frame_of marks) (missing two_rows marks known permitted) ++ end_of_data ∷ []);
      },
    )
handle_miss_data_sync-missing_example =
    handle_miss_data_sync-missing marks upstream_store two_rows (λ id name t. refl) known permitted
      [] quiet refl

abbrev point : DataPoint
point = record { item_name = "level"; value = 100; unix_ms = pos 11; kind = normal_kind }

abbrev batches : List (Uuid × List DataPoint)
batches = (4, point ∷ []) ∷ []

all_saved : (save_all marks downstream_store batches quiet).0 ≡ ok tt
unfolding save_all save_points on_store notify ◌>>=◌ pure show_marks
all_saved = refl

recv_missing-save_all_example :
    recv_missing marks downstream_store (map (batch_frame marks) batches ++ end_of_data ∷ []) quiet
    ≡ (ok tt, record (save_all marks downstream_store batches quiet).1 { inbox = [] })
recv_missing-save_all_example =
    recv_missing-save_all marks downstream_store show_marks-named parse_marks-show_marks batches []
      quiet all_saved

abbrev full_batch : RelayConfigBatch
full_batch = record {
  full_sync = true;
  stations = db_station_full_to_proto marks full_info ∷ [];
  device_records = [];
  events = [];
}

applied :
    (apply_full_config marks (logged downstream_store) 1 full_batch (peer_with (0, []))).0 ≡ ok tt
unfolding apply_full_config apply_stations apply_station del_stations sync_devices sync_items
    del_devices del_items sync_device_records on_store on_change notify attempt ◌>>=◌ pure
    parse_marks db_station_full_to_proto show_marks new_station_set
applied = refl

apply_full_config-absent_example :
    (apply_full_config marks (logged downstream_store) 1 full_batch (peer_with (0, []))).1.store.1
    ≡ [] ++ absent (new_station_set marks full_batch.stations) (station_at 4 ∷ station_at 5 ∷ [])
apply_full_config-absent_example =
    apply_full_config-absent marks downstream_store 1 full_batch (peer_with (0, []))
      (station_at 4 ∷ station_at 5 ∷ []) refl applied

-- The other methods of the downstream's database fail.
abbrev unused : {A : Type 0} → Exec Database A
unused d = (err eof, d)

abbrev other_methods : DownstreamStore Database
other_methods = record {
  update_available_items = λ u items. unused;
  get_stations_by_upstream_id = λ u. unused;
  get_devices = λ id. unused;
  get_items = λ id. unused;
  sync_station = λ u st. unused;
  sync_station_cannot_edit = λ id cameras. unused;
  del_upstream_station = λ u id. unused;
  update_station_status = λ id status at. unused;
  sync_device = λ d. unused;
  del_device = λ id name. unused;
  sync_item = λ i. unused;
  del_item = λ id name. unused;
  sync_device_record = λ dr. unused;
  latest_status_log_row_id = λ id. unused;
  save_item_status_log = λ id row name status at. unused;
  update_and_save_status_log = λ id row name status at. unused;
  update_item_status = λ id name status at. unused;
  get_all_items = unused;
  items_latest = λ id names. unused;
  ensure_data_table = λ name. unused;
  save_data_history = λ id name value at. unused;
}

-- The downstream has no table of the item yet.
abbrev empty_db : Database
empty_db = record { stations = []; items = []; status_log = []; tables = []; rpi_log = [] }

legal_rows : AllLegal (arrivals (map points_of (missing two_rows marks known permitted)))
unfolding contains_illegal_character show_marks
legal_rows = (refl, (refl, tt))

recv_missing-handle_miss_data_sync_example :
    HasTaken
      (arrivals (map points_of (missing two_rows marks known permitted)))
      (peer_with empty_db)
      (recv_missing marks
        (db_downstream_store other_methods)
        (handle_miss_data_sync marks upstream_store
          (some permitted)
          (record quiet { inbox = stations_items_latest (some known) ∷ []; outbox = [] })).1.outbox
        (peer_with empty_db))
recv_missing-handle_miss_data_sync_example =
    recv_missing-handle_miss_data_sync marks upstream_store other_methods two_rows known permitted
      quiet (peer_with empty_db) show_marks-named parse_marks-show_marks (λ id name t. refl) refl
      legal_rows

abbrev bob_calls : Peer ℕ
bob_calls = record quiet {
  inbox = downstream_hello (some (record { username = "bob"; protocol_version = "v2" })) ∷ [];
}

abbrev users : Auth
users = record { get_user = λ name. ok normal_user; get_permissions = λ name. ok permitted }

outbox-stream_relay_example :
    ((stream_relay marks users upstream_store "alice" [] bob_calls).1.outbox ≡ [])
    ⊎ IsHello "alice" bob_calls.inbox
outbox-stream_relay_example = outbox-stream_relay marks users upstream_store "alice" [] bob_calls
