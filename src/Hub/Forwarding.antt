-- ===== src/Hub/Forwarding.antt =====
-- What a message of one server's brokers becomes on the brokers of the server that follows it.
use tidegauge_backend.Prelude.{
  String, ◌≡◌, refl, [], ◌∷◌, ◌++◌, Bool, true, false, Option, some, ◌==◌, string_keys,
  if◌then◌else◌,
}
use tidegauge_backend.Types.{StationItem, DataTime, FullItemStatus}
use tidegauge_backend.Wire.{gpio, normal_kind}
use tidegauge_backend.Exec.{Result, ok, ◌>>=◌, ignoring}
use tidegauge_backend.Relay.{
  DownstreamStore, Codec, Peer, Notice, on_store, on_change, notify, publish_status,
  publish_miss_data, publish_data, item_status_body,
}
use tidegauge_backend.Relay.Wire.{RelayMessage, RelayDataBatch, data_batch, status_event}
use tidegauge_backend.Relay.Events.{
  apply_data_batch, apply_points, publish_point, apply_status_event,
}
use tidegauge_backend.Relay.Upstream.{Auth}
use tidegauge_backend.Hub.{
  Hub, Body, BrokerKind, broker_data, broker_missing_data, send_msg, config, hub_publish,
}
use tidegauge_backend.Hub.Adapters.{
  data_message, data_type, notify_relay, relay_data_message_to_frame, relay_config_message_to_frame,
  item_status_event,
}

-- The three ways in which a value comes: missing until now, or new, from a GPIO or not.
pub data Way : Type 0 where
  missed : Way
  fresh : Bool → Way

abbrev pub type_of : Way → String
type_of missed = "MissData"
type_of (fresh is_gpio) = data_type is_gpio

abbrev pub notice_of : Way → StationItem → DataTime → Notice
notice_of missed si dt = publish_miss_data si dt
notice_of (fresh is_gpio) si dt = publish_data si dt is_gpio

abbrev pub broker_of : Way → BrokerKind
broker_of missed = broker_missing_data
broker_of (fresh _) = broker_data

-- The frame into which a message of the data brokers is made.
abbrev pub applied_frame :
    {D : Type 0} → Codec → DownstreamStore D → Option RelayMessage → Peer D → Peer D
applied_frame codec store (some (data_batch batch)) s = (apply_data_batch codec store batch s).1
applied_frame codec store (some (status_event evt)) s = (apply_status_event codec store evt s).1
applied_frame codec store _ s = s

-- The batch of that frame.
abbrev batch_of : Codec → Way → StationItem → DataTime → RelayDataBatch
batch_of codec way si dt = record {
  station_id = codec.show_uuid si.station_id;
  data_type = type_of way;
  points =
      record {
        item_name = si.item_name;
        value = dt.value;
        unix_ms = dt.millisecond;
        kind = if type_of way == "data_gpio" then gpio else normal_kind;
      }
      ∷ [];
}

module _ {D : Type 0} (codec : Codec) (store : DownstreamStore D) where
  apply_data_batch_lem :
      (way : Way) (si : StationItem) (dt : DataTime) (s : Peer D) (d1 d2 : D)
      → codec.parse_uuid (codec.show_uuid si.station_id) ≡ some si.station_id
      → (codec.show_uuid si.station_id == "") ≡ false
      → store.ensure_data_table si.item_name s.store ≡ (ok tt, d1)
      → store.save_data_history si.station_id si.item_name dt.value dt.millisecond d1
        ≡ (ok true, d2)
      → (apply_data_batch codec store (batch_of codec way si dt) s).1.notices
        ≡ s.notices ++ notice_of way si dt ∷ []
  unfolding apply_data_batch apply_points publish_point on_store ◌>>=◌ ignoring notify
  apply_data_batch_lem missed si dt s d1 d2 parsed named table saved =
      rw (named, parsed, table, saved) refl
  apply_data_batch_lem (fresh false) si dt s d1 d2 parsed named table saved =
      rw (named, parsed, table, saved) refl
  apply_data_batch_lem (fresh true) si dt s d1 d2 parsed named table saved =
      rw (named, parsed, table, saved) refl

module _ {D : Type 0} (codec : Codec) (store : DownstreamStore D) where
  -- A value that the brokers of the upstream carry, made into a frame and applied by a downstream
  -- whose database takes it as new, is published there once, and as the very same message on the
  -- broker for values that come in this way.
  pub apply_data_batch-forwarded :
      (way : Way) (si : StationItem) (dt : DataTime) (s : Peer D) (d1 d2 : D) (auth : Auth)
      (h : Hub)
      → codec.parse_uuid (codec.show_uuid si.station_id) ≡ some si.station_id
      → (codec.show_uuid si.station_id == "") ≡ false
      → store.ensure_data_table si.item_name s.store ≡ (ok tt, d1)
      → store.save_data_history si.station_id si.item_name dt.value dt.millisecond d1
        ≡ (ok true, d2)
      → ((applied_frame codec store
            (relay_data_message_to_frame codec (data_message (type_of way) si dt))
            s).notices
          ≡ s.notices ++ notice_of way si dt ∷ [])
        × (notify_relay auth (notice_of way si dt) h
            ≡ hub_publish (broker_of way) (data_message (type_of way) si dt) (some si) h)
  unfolding relay_data_message_to_frame notify_relay
  apply_data_batch-forwarded missed si dt s d1 d2 auth h parsed named table saved =
      (apply_data_batch_lem codec store missed si dt s d1 d2 parsed named table saved, refl)
  apply_data_batch-forwarded (fresh g) si dt s d1 d2 auth h parsed named table saved =
      (apply_data_batch_lem codec store (fresh g) si dt s d1 d2 parsed named table saved, refl)

  apply_status_event_lem :
      (status : FullItemStatus) (s : Peer D) (d : D)
      → codec.parse_uuid (codec.show_uuid status.station_id) ≡ some status.station_id
      → (status.log.item_status.item_name == "") ≡ false
      → store.update_and_save_status_log status.station_id status.log.row_id
          status.log.item_status.item_name status.log.item_status.change.status
          status.log.item_status.change.changed_at s.store
        ≡ (ok true, d)
      → (apply_status_event codec store (item_status_event codec status) s).1.notices
        ≡ s.notices ++ publish_status "UpdateItemStatus" (item_status_body status) ∷ []
  unfolding apply_status_event on_change on_store ◌>>=◌ ignoring notify item_status_event
  apply_status_event_lem status s d parsed named saved = rw (parsed, named, saved) refl

  -- A status of an item that the brokers of the upstream carry, be it missing until now or new, made
  -- into a frame and applied by a downstream whose database takes it as new, is published there once,
  -- unchanged, as a new status in both cases.
  pub apply_status_event-forwarded :
      (missing : Bool) (write_body : Body → Result String) (status : FullItemStatus) (s : Peer D)
      (d : D)
      → codec.parse_uuid (codec.show_uuid status.station_id) ≡ some status.station_id
      → (status.log.item_status.item_name == "") ≡ false
      → store.update_and_save_status_log status.station_id status.log.row_id
          status.log.item_status.item_name status.log.item_status.change.status
          status.log.item_status.change.changed_at s.store
        ≡ (ok true, d)
      → (applied_frame codec store
          (relay_config_message_to_frame codec write_body (
            send_msg
              (if missing then "MissItemStatus" else "UpdateItemStatus")
              (config (item_status_body status))))
          s).notices
        ≡ s.notices ++ publish_status "UpdateItemStatus" (item_status_body status) ∷ []
  unfolding relay_config_message_to_frame
  apply_status_event-forwarded true write_body status s d parsed named saved =
      apply_status_event_lem status s d parsed named saved
  apply_status_event-forwarded false write_body status s d parsed named saved =
      apply_status_event_lem status s d parsed named saved
