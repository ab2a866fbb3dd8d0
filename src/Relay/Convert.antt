-- ===== src/Relay/Convert.antt =====
-- tide_server/syncv2/relay/apply.go: the relayed rows as frames, and back.
pub mod RoundTrip
use tidegauge_backend.Prelude.{
  ℕ, String, List, [], ◌∷◌, Option, none, some, map, flat_map, ◌==◌, nat_keys, if◌then◌else◌, ◌≡◌,
  refl, ap,
}
use tidegauge_backend.Prelude.Int.{ℤ, pos}
use tidegauge_backend.Types.{Uuid, nil_uuid, UuidStringsMap, StationItem}
use tidegauge_backend.Relay.{Station, Device, Item, DeviceRecord, StationFullInfo, Codec}
use tidegauge_backend.Relay.Wire.{RelayDevice, RelayItem, RelayStationFull, RelayDeviceRecord}

topics_of : Uuid × List String → List StationItem
topics_of (sid, items) = map (λ item. record { station_id = sid; item_name = item }) items

-- A set of topics is a list.
unfoldable pub uuid_strings_map_to_topics : UuidStringsMap → List StationItem
unfolding topics_of
uuid_strings_map_to_topics permissions = flat_map topics_of permissions

-- `id, _ := uuid.Parse(text)`: the nil UUID where the text is none.
abbrev pub or_nil : Option Uuid → Uuid
or_nil none = nil_uuid
or_nil (some id) = id

module _ (codec : Codec) where
  unfoldable pub db_device_to_proto : Device → RelayDevice
  db_device_to_proto d = record { station_id = codec.show_uuid d.station_id; name = d.name }

  unfoldable pub db_item_to_proto : Item → RelayItem
  db_item_to_proto i = record {
    station_id = codec.show_uuid i.station_id;
    name = i.name;
    type_name = i.type_name;
    device_name = i.device_name;
    status = i.status;
    status_changed_at_ms = i.status_changed_at;
    available = i.available;
  }

  unfoldable pub db_station_full_to_proto : StationFullInfo → RelayStationFull
  unfolding db_device_to_proto db_item_to_proto
  db_station_full_to_proto sf = record {
    id = codec.show_uuid sf.station.id;
    identifier = sf.station.identifier;
    name = sf.station.name;
    ip_addr = sf.station.ip_addr;
    location = sf.station.location;
    partner = sf.station.partner;
    cameras = sf.station.cameras;
    status = sf.station.status;
    status_changed_at_ms = sf.station.status_changed_at;
    upstream = sf.station.upstream;
    devices = map db_device_to_proto sf.devices;
    items = map db_item_to_proto sf.items;
  }

  unfoldable pub db_device_record_to_proto : DeviceRecord → RelayDeviceRecord
  db_device_record_to_proto dr = record {
    id = codec.show_uuid dr.id;
    station_id = codec.show_uuid dr.station_id;
    device_name = dr.device_name;
    config = dr.config;
  }

  unfoldable pub proto_to_db_station : RelayStationFull → Station
  proto_to_db_station pb = record {
    id = or_nil (codec.parse_uuid pb.id);
    identifier = pb.identifier;
    name = pb.name;
    ip_addr = pb.ip_addr;
    location = pb.location;
    partner = pb.partner;
    cameras = pb.cameras;
    status = pb.status;
    status_changed_at = pb.status_changed_at_ms;
    upstream = pb.upstream;
  }

  -- The frame has neither specs nor a time of maintenance, so they are empty.
  unfoldable pub proto_to_db_device : RelayDevice → Uuid → Device
  proto_to_db_device pb station_id = record {
    station_id =
        if station_id == nil_uuid then or_nil (codec.parse_uuid pb.station_id) else station_id;
    name = pb.name;
    specs = "";
    last_maintenance = pos 0;
  }

  unfoldable pub proto_to_db_item : RelayItem → Item
  proto_to_db_item pb = record {
    station_id = or_nil (codec.parse_uuid pb.station_id);
    name = pb.name;
    type_name = pb.type_name;
    device_name = pb.device_name;
    status = pb.status;
    status_changed_at = pb.status_changed_at_ms;
    available = pb.available;
  }

  -- The frame has neither times nor a version, so they are 0.
  unfoldable pub proto_to_db_device_record : RelayDeviceRecord → DeviceRecord
  proto_to_db_device_record pb = record {
    id = or_nil (codec.parse_uuid pb.id);
    station_id = or_nil (codec.parse_uuid pb.station_id);
    device_name = pb.device_name;
    config = pb.config;
    created_at = pos 0;
    updated_at = pos 0;
    version = pos 0;
  }
