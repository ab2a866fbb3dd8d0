-- ===== src/Relay/Wire.antt =====
-- proto/sync/v2/sync_v2.proto, the relay half: the frames between two servers. A field that the code
-- compares with nil is an `Option`; a JSON text (`bytes`) is a `String`; a map is the list of its entries.
use tidegauge_backend.Prelude.{String, List, Option, Bool}
use tidegauge_backend.Prelude.Int.{ℤ}
use tidegauge_backend.Wire.{DataPoint, ErrorFrame}

pub record RelayDownstreamHello : Type 0 where
  pub username : String
  pub protocol_version : String

pub record RelayDevice : Type 0 where
  pub station_id : String
  pub name : String

pub record RelayItem : Type 0 where
  pub station_id : String
  pub name : String
  pub type_name : String
  pub device_name : String
  pub status : String
  pub status_changed_at_ms : ℤ
  pub available : Bool

pub record RelayStationFull : Type 0 where
  pub id : String
  pub identifier : String
  pub name : String
  pub ip_addr : String
  pub location : String
  pub partner : String
  pub cameras : String
  pub status : String
  pub status_changed_at_ms : ℤ
  pub upstream : Bool
  pub devices : List RelayDevice
  pub items : List RelayItem

pub record RelayDeviceRecord : Type 0 where
  pub id : String
  pub station_id : String
  pub device_name : String
  pub config : String

pub record RelayConfigEvent : Type 0 where
  pub type_name : String
  pub payload : String

pub record RelayConfigBatch : Type 0 where
  pub full_sync : Bool
  pub stations : List RelayStationFull
  pub device_records : List RelayDeviceRecord
  pub events : List RelayConfigEvent

pub record RelayDataBatch : Type 0 where
  pub station_id : String
  pub data_type : String
  pub points : List DataPoint

pub record RelayStatusEvent : Type 0 where
  pub station_id : String
  pub identifier : String
  pub row_id : ℤ
  pub item_name : String
  pub status : String
  pub changed_at_unix_ms : ℤ

pub data RelayMessage : Type 0 where
  downstream_hello : Option RelayDownstreamHello → RelayMessage
  upstream_hello : String → RelayMessage
  config_batch : RelayConfigBatch → RelayMessage
  data_batch : RelayDataBatch → RelayMessage
  status_event : RelayStatusEvent → RelayMessage
  available_items : List (String × List String) → RelayMessage
  stations_items_latest : Option (List (String × List (String × ℤ))) → RelayMessage
  stations_status_latest : Option (List (String × ℤ)) → RelayMessage
  error_frame : ErrorFrame → RelayMessage
  unset : RelayMessage
