-- ===== src/Relay/Upstream/Frames.antt =====
-- tide_server/syncv2/relay/upstream.go: what the frames of the serving side hold.
pub mod Permitted
use tidegauge_backend.Prelude.{
  ℕ, String, List, [], ◌∷◌, ◌++◌, Bool, true, false, not, Option, none, some, map, contains, lookup,
  insert, nat_keys, string_keys, ◌==◌, if◌then◌else◌,
}
use tidegauge_backend.Prelude.Int.{ℤ, pos, ltb_ℤ}
use tidegauge_backend.Types.{
  Uuid, UnixMs, Error, new, wrap, UuidStringsMap, StationItem, RowIdItemStatus, DataTime,
  station_item_keys, is_sql,
}
use tidegauge_backend.Wire.{DataPoint, normal_kind}
use tidegauge_backend.Text.{trim_space}
use tidegauge_backend.Exec.{
  Exec, Result, ok, err, pure, raise, modify, relabel, wrapping, ◌>>=◌, ◌>>◌, deferred,
}
use tidegauge_backend.Relay.{
  Item, StationFullInfo, DeviceRecord, UpstreamStore, Codec, Peer, recv, send,
}
use tidegauge_backend.Relay.Wire.{
  RelayMessage, downstream_hello, upstream_hello, config_batch, data_batch, available_items,
  stations_items_latest, stations_status_latest, RelayDownstreamHello, RelayConfigEvent,
}
use tidegauge_backend.Relay.Convert.{
  uuid_strings_map_to_topics, db_station_full_to_proto, db_device_record_to_proto,
}

-- `permissionTopics == nil`, or the item is among them.
abbrev pub is_permitted : Option (List StationItem) → StationItem → Bool
is_permitted none si = true
is_permitted (some topics) si = contains si topics

-- `append` to the list of a key, which is made when it is missing.
abbrev pub append_name : {K : Type 0} → Option (List K) → K → List K
append_name none name = name ∷ []
append_name (some names) name = names ++ name ∷ []

unfoldable pub items_by_station : UuidStringsMap → List Item → UuidStringsMap
items_by_station m [] = m
items_by_station m (i ∷ rest) =
    items_by_station (insert i.station_id (append_name (lookup i.station_id m) i.name) m) rest

-- `downstreamLatest.LatestUnixMs[itemName]`, 0 where either is missing.
abbrev after_of : Option ℤ → ℤ
after_of none = pos 0
after_of (some t) = t

abbrev pub after_ms : String → Option (List (String × ℤ)) → ℤ
after_ms name none = pos 0
after_ms name (some latest) = after_of (lookup name latest)

-- The empty batch that ends the missing data.
abbrev pub end_of_data : RelayMessage
end_of_data = data_batch (record { station_id = ""; data_type = ""; points = [] })

module _ (codec : Codec) where
  unfoldable pub stations_map :
      Option (List StationItem)
      → List (String × List String)
      → List StationItem
      → List (String × List String)
  stations_map topics m [] = m
  stations_map topics m (si ∷ rest) =
      let key = codec.show_uuid si.station_id in
      stations_map topics
        (if is_permitted topics si
          then insert key (append_name (lookup key m) si.item_name) m
          else m)
        rest

  -- A log that cannot be written as JSON is left out.
  abbrev pub miss_event : Result String → List RelayConfigEvent
  miss_event (ok payload) = record { type_name = "MissItemStatus"; payload = payload } ∷ []
  miss_event (err _) = []

  unfoldable pub miss_events : Uuid → List RowIdItemStatus → List RelayConfigEvent
  miss_events id [] = []
  miss_events id (log ∷ rest) =
      miss_event (codec.write_item_status (record { station_id = id; identifier = ""; log = log }))
      ++ miss_events id rest

  abbrev pub miss_data_batch : Uuid → String → List DataTime → RelayMessage
  miss_data_batch id name ds = data_batch (record {
    station_id = codec.show_uuid id;
    data_type = "MissData";
    points =
        map
          (λ d. record {
            item_name = name;
            value = d.value;
            unix_ms = d.millisecond;
            kind = normal_kind;
          })
          ds;
  })
