-- ===== src/Hub/Adapters.antt =====
-- tide_server/controller/syncv2_adapters.go: what the calls of the notifiers publish through the hub, and
-- the subscription that a relay connection makes and takes back.
use tidegauge_backend.Prelude.{
  ℕ, String, [], ◌∷◌, Bool, false, ◌||◌, Option, none, some, ◌==◌, string_keys, if◌then◌else◌,
}
use tidegauge_backend.Prelude.Int.{pos}
use tidegauge_backend.Types.{StationItem, DataTime, FullItemStatus, StationStatus}
use tidegauge_backend.Wire.{normal_kind, gpio}
use tidegauge_backend.Exec.{Result, ok, err}
use tidegauge_backend.PubSub.{Topics, new_subscriber, write}
use tidegauge_backend.Station
use tidegauge_backend.Relay.{
  Notice, Codec, publish_config, publish_status, broadcast_available_change, publish_miss_data,
  publish_data, station_status_body, item_status_body,
}
use tidegauge_backend.Relay.Wire.{
  RelayMessage, RelayStatusEvent, config_batch, data_batch, status_event,
}
use tidegauge_backend.Relay.Upstream.{Auth}
use tidegauge_backend.Hub.{
  Hub, Message, Body, forward, send_msg, config, broker_data, broker_missing_data, broker_status,
  broker_config, hub_publish, publish_delayed_data, hub_subscribe, hub_unsubscribe,
  track_subscriber, untrack_subscriber, cancel_at, conn_type_sync_config, conn_type_sync_data,
}
use tidegauge_backend.Hub.Availability.{broadcast_available_change as broadcast}

-- The message of a value: its type says whether it was missing, or comes from a GPIO.
abbrev pub data_message : String → StationItem → DataTime → Message
data_message type_name si dt =
    forward (record { type_name = type_name; station_item = si; data_time = dt })

abbrev pub data_type : Bool → String
data_type is_gpio = if is_gpio then "data_gpio" else "data"

-- `syncV2StationNotifier`.
unfoldable pub notify_station : Station.Notice → Hub → Hub
notify_station (Station.publish_miss_data si dt) h =
    hub_publish broker_missing_data (data_message "MissData" si dt) (some si) h
notify_station (Station.publish_realtime_data si dt is_gpio) h =
    publish_delayed_data (data_message (data_type is_gpio) si dt) (some si) h
notify_station (Station.publish_miss_item_status s) h =
    hub_publish broker_config (send_msg "MissItemStatus" (config (item_status_body s))) none h
notify_station (Station.publish_update_item_status s) h =
    hub_publish broker_status (send_msg "UpdateItemStatus" (config (item_status_body s))) none h
notify_station (Station.publish_station_status s) h =
    hub_publish broker_status (send_msg "UpdateStationStatus" (config (station_status_body s))) none
      h

-- `syncV2RelayDownstreamNotifier`.
unfoldable pub notify_relay : Auth → Notice → Hub → Hub
notify_relay auth (publish_config type_name body) h =
    hub_publish broker_config (send_msg type_name (config body)) none h
notify_relay auth (publish_status type_name body) h =
    hub_publish broker_status (send_msg type_name (config body)) none h
notify_relay auth (broadcast_available_change items) h = broadcast auth items h
notify_relay auth (publish_miss_data si dt) h =
    hub_publish broker_missing_data (data_message "MissData" si dt) (some si) h
notify_relay auth (publish_data si dt is_gpio) h =
    hub_publish broker_data (data_message (data_type is_gpio) si dt) (some si) h

-- `syncV2RelayFrameSource.Subscribe`, with the two new subscribers on the heap.
unfoldable pub subscribe_frames : String → Topics StationItem → ℕ → ℕ → Hub → Hub
subscribe_frames username topics config_subscriber data_subscriber h =
    let fresh =
      write (write h.heap config_subscriber (new_subscriber 10000)) data_subscriber
        (new_subscriber 10000) in
    let h1 = hub_subscribe broker_config config_subscriber none (record h { heap = fresh }) in
    let h2 = hub_subscribe broker_status config_subscriber none h1 in
    let h3 = hub_subscribe broker_data data_subscriber topics h2 in
    let h4 = hub_subscribe broker_missing_data data_subscriber topics h3 in
    let h5 = track_subscriber username config_subscriber conn_type_sync_config h4 in
    track_subscriber username data_subscriber conn_type_sync_data h5

-- Its `stop`.
unfoldable pub stop_frames : String → ℕ → ℕ → Hub → Hub
stop_frames username config_subscriber data_subscriber h =
    let h1 = cancel_at data_subscriber (cancel_at config_subscriber h) in
    let h2 = untrack_subscriber username config_subscriber h1 in
    let h3 = untrack_subscriber username data_subscriber h2 in
    let h4 = hub_unsubscribe broker_config config_subscriber h3 in
    let h5 = hub_unsubscribe broker_status config_subscriber h4 in
    let h6 = hub_unsubscribe broker_data data_subscriber h5 in
    hub_unsubscribe broker_missing_data data_subscriber h6

module _ (codec : Codec) where
  unfoldable pub item_status_event : FullItemStatus → RelayStatusEvent
  item_status_event s = record {
    station_id = codec.show_uuid s.station_id;
    identifier = s.identifier;
    row_id = s.log.row_id;
    item_name = s.log.item_status.item_name;
    status = s.log.item_status.change.status;
    changed_at_unix_ms = s.log.item_status.change.changed_at;
  }

  -- A field that is left out is the zero of its type.
  unfoldable pub station_status_event : StationStatus → RelayStatusEvent
  station_status_event s = record {
    station_id = codec.show_uuid s.station_id;
    identifier = s.identifier;
    row_id = pos 0;
    item_name = "";
    status = s.change.status;
    changed_at_unix_ms = s.change.changed_at;
  }

  unfoldable pub relay_data_message_to_frame : Message → Option RelayMessage
  relay_data_message_to_frame (send_msg _ _) = none
  relay_data_message_to_frame (forward msg) = some (
      data_batch (record {
        station_id = codec.show_uuid msg.station_item.station_id;
        data_type = msg.type_name;
        points =
            record {
              item_name = msg.station_item.item_name;
              value = msg.data_time.value;
              unix_ms = msg.data_time.millisecond;
              kind = if msg.type_name == "data_gpio" then gpio else normal_kind;
            }
            ∷ [];
      }))

  module _ (write_body : Body → Result String) where
    payload_frame : String → Result String → Option RelayMessage
    payload_frame type_name (err e) = none
    payload_frame type_name (ok payload) = some (
        config_batch (record {
          full_sync = false;
          stations = [];
          device_records = [];
          events = record { type_name = type_name; payload = payload } ∷ [];
        }))

    -- The type assertions on the body: a body of another type is written as JSON.
    body_frame : String → Body → Option RelayMessage
    unfolding payload_frame item_status_event station_status_event
    body_frame type_name (config (item_status_body s)) =
        if type_name == "UpdateItemStatus" || type_name == "MissItemStatus"
        then some (status_event (item_status_event s))
        else payload_frame type_name (write_body (config (item_status_body s)))
    body_frame type_name (config (station_status_body s)) =
        if type_name == "UpdateStationStatus"
        then some (status_event (station_status_event s))
        else payload_frame type_name (write_body (config (station_status_body s)))
    body_frame type_name body = payload_frame type_name (write_body body)

    unfoldable pub relay_config_message_to_frame : Message → Option RelayMessage
    unfolding body_frame
    relay_config_message_to_frame (forward _) = none
    relay_config_message_to_frame (send_msg type_name body) = body_frame type_name body
