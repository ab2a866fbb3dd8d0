-- ===== src/Relay.antt =====
-- tide_server/syncv2/relay: the rows that are relayed, the interfaces to the databases of both sides and
-- to the downstream's brokers (types.go), and the state of one relay connection.
pub mod Wire
pub mod Convert
pub mod Apply
pub mod Events
pub mod Upstream
pub mod Downstream
pub mod CatchUp
pub mod DbStore
use tidegauge_backend.Prelude.{
  ℕ, String, List, [], ◌∷◌, ◌++◌, Bool, Option, none, some, if◌then◌else◌,
}
use tidegauge_backend.Prelude.Int.{ℤ}
use tidegauge_backend.Types.{
  Uuid, UnixMs, Float64, Status, Error, UuidStringsMap, DataTime, StationItem, RowIdItemStatus,
  FullItemStatus, StationStatus,
}
use tidegauge_backend.Exec.{Exec, Result, ok, err, pure, ◌>>=◌}
use tidegauge_backend.Relay.Wire.{RelayMessage}

-- tide_server/db: `Station`, `Device`, `Item`, `DeviceRecord` (its `Record` is `config` here, as in the
-- frame) and `StationFullInfo`. A `json.RawMessage` is its text, "" where it is nil.
pub record Station : Type 0 where
  pub id : Uuid
  pub identifier : String
  pub name : String
  pub ip_addr : String
  pub location : String
  pub partner : String
  pub cameras : String
  pub status : Status
  pub status_changed_at : UnixMs
  pub upstream : Bool

pub record Device : Type 0 where
  pub station_id : Uuid
  pub name : String
  pub specs : String
  pub last_maintenance : UnixMs

pub record Item : Type 0 where
  pub station_id : Uuid
  pub name : String
  pub type_name : String
  pub device_name : String
  pub status : Status
  pub status_changed_at : UnixMs
  pub available : Bool

pub record DeviceRecord : Type 0 where
  pub id : Uuid
  pub station_id : Uuid
  pub device_name : String
  pub config : String
  pub created_at : UnixMs
  pub updated_at : UnixMs
  pub version : ℤ

pub record StationFullInfo : Type 0 where
  pub station : Station
  pub items : List Item
  pub devices : List Device

-- `DownstreamStore`, over a database of type `D`. A `bool` says whether a row changed.
pub record DownstreamStore (D : Type 0) : Type 0 where
  pub update_available_items : ℕ → UuidStringsMap → Exec D Bool
  pub get_stations_by_upstream_id : ℕ → Exec D (List Station)
  pub get_devices : Uuid → Exec D (List Device)
  pub get_items : Uuid → Exec D (List Item)
  pub sync_station : ℕ → Station → Exec D Bool
  pub sync_station_cannot_edit : Uuid → String → Exec D Bool
  pub del_upstream_station : ℕ → Uuid → Exec D Bool
  pub update_station_status : Uuid → Status → UnixMs → Exec D Bool
  pub sync_device : Device → Exec D Bool
  pub del_device : Uuid → String → Exec D Bool
  pub sync_item : Item → Exec D Bool
  pub del_item : Uuid → String → Exec D Bool
  pub sync_device_record : DeviceRecord → Exec D Bool
  pub latest_status_log_row_id : Uuid → Exec D ℤ
  pub save_item_status_log : Uuid → ℤ → String → Status → UnixMs → Exec D Bool
  pub update_and_save_status_log : Uuid → ℤ → String → Status → UnixMs → Exec D Bool
  pub update_item_status : Uuid → String → Status → UnixMs → Exec D Bool
  pub get_all_items : Exec D (List Item)
  pub items_latest : Uuid → List String → Exec D (List (String × UnixMs))
  pub ensure_data_table : String → Exec D Unit
  pub save_data_history : Uuid → String → Float64 → UnixMs → Exec D Bool

-- `UpstreamStore`: readings only.
pub record UpstreamStore : Type 0 where
  pub get_available_items : Result (List StationItem)
  pub get_stations_full_info : Result (List StationFullInfo)
  pub get_device_records : Result (List DeviceRecord)
  pub get_item_status_logs : Uuid → ℤ → Result (List RowIdItemStatus)
  pub get_items_all_stations : Result (List Item)
  pub get_data_history : Uuid → String → UnixMs → Result (List DataTime)

-- What the source takes from its libraries: the text of a UUID (github.com/google/uuid) and JSON
-- (encoding/json), the latter at each type that it is used at.
pub record Codec : Type 0 where
  pub parse_uuid : String → Option Uuid
  pub show_uuid : Uuid → String
  pub read_station : String → Result Station
  pub read_station_id : String → Result Uuid
  pub read_device : String → Result Device
  pub read_item : String → Result Item
  pub read_device_record : String → Result DeviceRecord
  pub read_station_status : String → Result StationStatus
  pub read_item_status : String → Result FullItemStatus
  pub read_available : String → Result UuidStringsMap
  pub write_item_status : FullItemStatus → Result String

-- What `PublishConfig` and `PublishStatus` pass on: a value, or a payload as it came.
pub data ConfigBody : Type 0 where
  station_body : Station → ConfigBody
  station_id_body : Uuid → ConfigBody
  device_body : Device → ConfigBody
  item_body : Item → ConfigBody
  device_record_body : DeviceRecord → ConfigBody
  station_status_body : StationStatus → ConfigBody
  item_status_body : FullItemStatus → ConfigBody
  payload_body : String → ConfigBody

-- The calls of `DownstreamNotifier`.
pub data Notice : Type 0 where
  publish_config : String → ConfigBody → Notice
  publish_status : String → ConfigBody → Notice
  broadcast_available_change : UuidStringsMap → Notice
  publish_miss_data : StationItem → DataTime → Notice
  publish_data : StationItem → DataTime → Bool → Notice

-- One end of a relay connection: the database, the frames that `Recv` will return and the error after
-- them, the faults of the `Send` calls to come (`none` sends), what was sent, and what was published.
pub record Peer (D : Type 0) : Type 0 where
  pub store : D
  pub inbox : List RelayMessage
  pub closed : Error
  pub faults : List (Option Error)
  pub outbox : List RelayMessage
  pub notices : List Notice
  -- The user and the topics (`none`: all) of the upstream's subscription to its own brokers.
  pub subscription : Option (String × Option (List StationItem))

module _ {D : Type 0} where
  unfoldable pub on_store : {A : Type 0} → Exec D A → Exec (Peer D) A
  on_store m s = let (r, d) = m s.store in (r, record s { store = d })

  unfoldable pub received : List RelayMessage → Exec (Peer D) RelayMessage
  received [] s = (err s.closed, s)
  received (frame ∷ rest) s = (ok frame, record s { inbox = rest })

  -- `stream.Recv()`.
  unfoldable pub recv : Exec (Peer D) RelayMessage
  unfolding received
  recv s = received s.inbox s

  unfoldable pub sent : RelayMessage → List (Option Error) → Exec (Peer D) Unit
  sent frame [] s = (ok tt, record s { outbox = s.outbox ++ frame ∷ [] })
  sent frame (none ∷ rest) s = (ok tt, record s { outbox = s.outbox ++ frame ∷ []; faults = rest })
  sent frame (some e ∷ rest) s = (err e, record s { faults = rest })

  -- `stream.Send(frame)`.
  unfoldable pub send : RelayMessage → Exec (Peer D) Unit
  unfolding sent
  send frame s = sent frame s.faults s

  unfoldable pub notify : Notice → Exec (Peer D) Unit
  notify n s = (ok tt, record s { notices = s.notices ++ n ∷ [] })

  -- `if changed, err := …; err != nil { return err } else if changed { publish }`.
  unfoldable pub on_change : Exec D Bool → Notice → Exec (Peer D) Unit
  on_change m n = do changed ← on_store m; if changed then notify n else pure tt
