-- ===== src/Relay/Convert/RoundTrip.antt =====
-- What of the configuration of a station survives its way to the other server.
use tidegauge_backend.Prelude.{
  List, [], ◌∷◌, some, map, ◌==◌, nat_keys, ◌≡◌, refl, Bool-cases, inl, inr,
}
use tidegauge_backend.Prelude.Int.{pos}
use tidegauge_backend.Types.{Uuid, nil_uuid}
use tidegauge_backend.Relay.{Device, Item, StationFullInfo, Codec}
use tidegauge_backend.Relay.Wire.{RelayStationFull}
use tidegauge_backend.Relay.Convert.{
  or_nil, db_device_to_proto, db_item_to_proto, db_station_full_to_proto, proto_to_db_station,
  proto_to_db_device, proto_to_db_item,
}

-- What `applyFullConfig` reads from the frame of a station.
abbrev pub read_back : Codec → RelayStationFull → StationFullInfo
read_back codec pb = record {
  station = proto_to_db_station codec pb;
  items = map (λ i. proto_to_db_item codec i) pb.items;
  devices =
      map (λ d. proto_to_db_device codec d (or_nil (codec.parse_uuid d.station_id))) pb.devices;
}

-- A device as it is relayed: what it is made of and when it was maintained is lost.
abbrev pub relayed : Device → Device
relayed d = record d { specs = ""; last_maintenance = pos 0 }

module _ (codec : Codec)
    (parse-show : (id : Uuid) → codec.parse_uuid (codec.show_uuid id) ≡ some id) where
  device-round :
      (d : Device)
      → proto_to_db_device codec
          (db_device_to_proto codec d)
          (or_nil (codec.parse_uuid (codec.show_uuid d.station_id)))
        ≡ relayed d
  unfolding proto_to_db_device db_device_to_proto
  device-round d = elim (Bool-cases (d.station_id == nil_uuid)) [
    | inl e ↦ rw (parse-show d.station_id, e)
    | inr e ↦ rw (parse-show d.station_id, e)
  ]

  item-round : (i : Item) → proto_to_db_item codec (db_item_to_proto codec i) ≡ i
  unfolding proto_to_db_item db_item_to_proto
  item-round i = rw (parse-show i.station_id)

  devices-round :
      (ds : List Device)
      → map
          (λ d. proto_to_db_device codec d (or_nil (codec.parse_uuid d.station_id)))
          (map (db_device_to_proto codec) ds)
        ≡ map relayed ds
  unfolding db_device_to_proto
  devices-round [] = refl
  devices-round (d ∷ ds) = rw (device-round d, devices-round ds)

  items-round :
      (is : List Item) → map (λ i. proto_to_db_item codec i) (map (db_item_to_proto codec) is) ≡ is
  items-round [] = refl
  items-round (i ∷ is) = rw (item-round i, items-round is)

  -- Where a UUID's text reads back as that UUID, what the downstream reads from the frame that the
  -- upstream makes of a station is the station with the same items and the same devices, but that the
  -- specs and the last maintenance of each device are lost: they come back empty and 0.
  pub read_back-db_station_full_to_proto :
      (sf : StationFullInfo)
      → read_back codec (db_station_full_to_proto codec sf)
        ≡ record sf { devices = map relayed sf.devices }
  unfolding db_station_full_to_proto proto_to_db_station
  read_back-db_station_full_to_proto sf =
      rw (devices-round sf.devices, items-round sf.items, parse-show sf.station.id)
