-- ===== src/Wire.antt =====
-- proto/sync/v2/sync_v2.proto, the station half: the frames between tide_client and tide_server. A
-- field that the code compares with nil is an `Option`. `unset` is a message whose body is not set.
use tidegauge_backend.Prelude.{ℕ, String, List, Option, Bool}
use tidegauge_backend.Prelude.Int.{ℤ}
use tidegauge_backend.Types.{Float64, StringMapMap}

pub record ClientHello : Type 0 where
  pub station_identifier : String
  pub protocol_version : String

pub record PbStationInfo : Type 0 where
  pub identifier : String
  pub devices : StringMapMap
  pub cameras : List String

pub data DataKind : Type 0 where
  unspecified normal_kind gpio : DataKind

pub record DataPoint : Type 0 where
  pub item_name : String
  pub value : Float64
  pub unix_ms : ℤ
  pub kind : DataKind

pub record DataBatch : Type 0 where
  pub replay : Bool
  pub points : List DataPoint

pub record ItemStatusLog : Type 0 where
  pub row_id : ℤ
  pub item_name : String
  pub status : String
  pub changed_at_unix_ms : ℤ

pub record ItemStatusBatch : Type 0 where
  pub replay : Bool
  pub logs : List ItemStatusLog

pub record RpiStatus : Type 0 where
  pub cpu_temp : Float64
  pub unix_ms : ℤ

abbrev pub Bytes : Type 0
Bytes = List ℕ

pub record SnapshotResponse : Type 0 where
  pub image : Bytes
  pub error : String

pub record ErrorFrame : Type 0 where
  pub code : String
  pub message : String
  pub retryable : Bool

pub data StationMessage : Type 0 where
  client_hello : Option ClientHello → StationMessage
  server_hello : String → StationMessage
  station_info : Option PbStationInfo → StationMessage
  items_latest : List (String × ℤ) → StationMessage
  status_latest : ℤ → StationMessage
  data_batch : DataBatch → StationMessage
  item_status_batch : ItemStatusBatch → StationMessage
  rpi_status : RpiStatus → StationMessage
  snapshot_request : Option String → StationMessage
  snapshot_response : Option SnapshotResponse → StationMessage
  error_frame : ErrorFrame → StationMessage
  unset : StationMessage

-- `*ptr.Kind == DATA_KIND_GPIO`.
abbrev pub is_gpio : DataKind → Bool
is_gpio gpio = Bool.true
is_gpio unspecified = Bool.false
is_gpio normal_kind = Bool.false
