-- ===== src/Relay/Upstream.antt =====
-- tide_server/syncv2/relay/upstream.go: the side that serves.
pub mod Frames
pub mod History
pub mod Login
use tidegauge_backend.Prelude.{
  ℕ, String, List, [], ◌∷◌, ◌++◌, Bool, true, false, not, Option, none, some, map, contains, lookup,
  insert, nat_keys, string_keys, ◌==◌, if◌then◌else◌,
}
use tidegauge_backend.Prelude.Int.{ℤ, pos, ltb_ℤ}
use tidegauge_backend.Types.{
  Uuid, UnixMs, Error, new, wrap, UuidStringsMap, StationItem, RowIdItemStatus, DataTime,
  station_item_keys, is_sql,
}
use tidegauge_backend.Wire.{DataPoint, normal_kind}
use tidegauge_backend.Text.{trim_space}
use tidegauge_backend.Exec.{
  Exec, Result, ok, err, pure, raise, modify, relabel, wrapping, ◌>>=◌, ◌>>◌, deferred,
}
use tidegauge_backend.Relay.{
  Item, StationFullInfo, DeviceRecord, UpstreamStore, Codec, Peer, recv, send,
}
use tidegauge_backend.Relay.Wire.{
  RelayMessage, downstream_hello, upstream_hello, config_batch, data_batch, available_items,
  stations_items_latest, stations_status_latest, RelayDownstreamHello, RelayConfigEvent,
}
use tidegauge_backend.Relay.Convert.{
  uuid_strings_map_to_topics, db_station_full_to_proto, db_device_record_to_proto,
}
use tidegauge_backend.Relay.Upstream.Frames.{
  stations_map, miss_events, items_by_station, after_ms, miss_data_batch, end_of_data,
}

-- tide_server/auth: the roles, of which the code here tells one apart, and what it asks of the users.
pub data Role : Type 0 where
  normal_user : Role
  other_role : Role

pub record Auth : Type 0 where
  pub get_user : String → Result Role
  pub get_permissions : String → Result UuidStringsMap

-- What the `select` of `forwardIncremental` receives: the context's end, the end of the connection, or a
-- frame of the configuration or the data channel (`none`: closed, or nil).
pub data Event : Type 0 where
  context_done : Error → Event
  downstream_gone : Error → Event
  config_frame : Option RelayMessage → Event
  data_frame : Option RelayMessage → Event

module _ {D : Type 0} where
  abbrev pub reading : {A : Type 0} → Result A → Exec (Peer D) A
  reading r s = (r, s)

  unfoldable pub forward_incremental : List Event → Exec (Peer D) Unit
  forward_incremental [] = pure tt
  forward_incremental (context_done e ∷ rest) = raise e
  forward_incremental (downstream_gone e ∷ rest) = raise e
  forward_incremental (config_frame none ∷ rest) = raise (new "config subscriber closed")
  forward_incremental (config_frame (some frame) ∷ rest) = do send frame; forward_incremental rest
  forward_incremental (data_frame none ∷ rest) = raise (new "data subscriber closed")
  forward_incremental (data_frame (some frame) ∷ rest) = do send frame; forward_incremental rest

  check_hello : RelayMessage → Exec (Peer D) RelayDownstreamHello
  check_hello (downstream_hello (some hello)) =
      if trim_space hello.username == "" then raise (new "username is required") else pure hello
  check_hello _ = raise (new "first frame must be downstream_hello")

  unfoldable pub recv_downstream_hello : Exec (Peer D) RelayDownstreamHello
  unfolding check_hello
  recv_downstream_hello = do first ← recv; check_hello first

  module _ (codec : Codec) (store : UpstreamStore) where
    unfoldable pub send_available_items : Option (List StationItem) → Exec (Peer D) Unit
    send_available_items topics = do
      local_avail ←
          wrapping (wrap "failed to get available items") (reading store.get_available_items)
      send (available_items (stations_map codec topics [] local_avail))

    unfoldable pub send_full_config : Exec (Peer D) Unit
    send_full_config = do
      stations_full ←
          wrapping (wrap "failed to get stations full info") (reading store.get_stations_full_info)
      device_records ←
          wrapping (wrap "failed to get device records") (reading store.get_device_records)
      send (
          config_batch (record {
            full_sync = true;
            stations = map (db_station_full_to_proto codec) stations_full;
            device_records = map (db_device_record_to_proto codec) device_records;
            events = [];
          }))

    miss_events_at : Option Uuid → ℤ → Exec (Peer D) (List RelayConfigEvent)
    miss_events_at none row_id = pure []
    miss_events_at (some id) row_id = do
      logs ←
          wrapping (wrap "failed to get item status logs")
            (reading (store.get_item_status_logs id row_id))
      pure (miss_events codec id logs)

    unfoldable pub all_miss_events : List (String × ℤ) → Exec (Peer D) (List RelayConfigEvent)
    unfolding miss_events_at
    all_miss_events [] = pure []
    all_miss_events ((id, row_id) ∷ rest) = do
      events ← miss_events_at (codec.parse_uuid id) row_id
      more ← all_miss_events rest
      pure (events ++ more)

    expect_status_latest : RelayMessage → Exec (Peer D) (List (String × ℤ))
    expect_status_latest (stations_status_latest (some m)) = pure m
    expect_status_latest _ = raise (new "expected stations_status_latest frame")

    unfoldable pub handle_miss_status_sync : Exec (Peer D) Unit
    unfolding all_miss_events expect_status_latest miss_events_at
    handle_miss_status_sync = do
      frame ← recv
      latest ← expect_status_latest frame
      events ← all_miss_events latest
      send (
          config_batch
            (record { full_sync = false; stations = []; device_records = []; events = events }))

    expect_items_latest : RelayMessage → Exec (Peer D) (List (String × List (String × ℤ)))
    expect_items_latest (stations_items_latest (some m)) = pure m
    expect_items_latest _ = raise (new "expected stations_items_latest frame")

    effective_permissions : Option UuidStringsMap → Exec (Peer D) UuidStringsMap
    effective_permissions (some permissions) = pure permissions
    effective_permissions none = do
      items ← wrapping (wrap "failed to get all items") (reading store.get_items_all_stations)
      pure (items_by_station [] items)

    -- A missing table is passed over, and so is an empty history.
    send_history : Uuid → String → Result (List DataTime) → Exec (Peer D) Unit
    send_history id name (err e) =
        if is_sql "42P01" e then pure tt else raise (wrap "failed to get data history" e)
    send_history id name (ok []) = pure tt
    send_history id name (ok (d ∷ ds)) = send (miss_data_batch codec id name (d ∷ ds))

    unfoldable pub send_missing :
        Uuid → Option (List (String × ℤ)) → List String → Exec (Peer D) Unit
    unfolding send_history
    send_missing id latest [] = pure tt
    send_missing id latest (name ∷ rest) = do
      let t = after_ms name latest
      if ltb_ℤ (pos 0) t then send_history id name (store.get_data_history id name t) else pure tt
      send_missing id latest rest

    unfoldable pub send_all_missing :
        List (String × List (String × ℤ)) → UuidStringsMap → Exec (Peer D) Unit
    unfolding send_missing send_history
    send_all_missing latest [] = pure tt
    send_all_missing latest ((id, names) ∷ rest) = do
      send_missing id (lookup (codec.show_uuid id) latest) names
      send_all_missing latest rest

    unfoldable pub handle_miss_data_sync : Option UuidStringsMap → Exec (Peer D) Unit
    unfolding expect_items_latest effective_permissions send_all_missing send_missing send_history
    handle_miss_data_sync permissions = do
      frame ← recv
      latest ← expect_items_latest frame
      permitted ← effective_permissions permissions
      send_all_missing latest permitted
      send end_of_data

    unfoldable pub run_bootstrap_sync :
        Option (List StationItem) → Option UuidStringsMap → Exec (Peer D) Unit
    run_bootstrap_sync topics permissions = do
      send (upstream_hello "sync-v2-upstream")
      send_available_items topics
      send_full_config
      handle_miss_status_sync
      handle_miss_data_sync permissions

abbrev pub topics_of : Option UuidStringsMap → Option (List StationItem)
topics_of none = none
topics_of (some permissions) = some (uuid_strings_map_to_topics permissions)

-- `StreamRelay`, its dependencies given.
module _ {D : Type 0} (codec : Codec) (auth : Auth) (store : UpstreamStore) where
  permissions_of : String → Role → Exec (Peer D) (Option UuidStringsMap)
  permissions_of username normal_user = do
    permissions ←
        wrapping (wrap "failed to get user permissions") (reading (auth.get_permissions username))
    pure (some permissions)
  permissions_of username other_role = pure none

  unfoldable pub stream_relay : String → List Event → Exec (Peer D) Unit
  unfolding permissions_of
  stream_relay authenticated_username events = do
    hello ← recv_downstream_hello
    let username = trim_space hello.username
    if username == "" then raise (new "empty username in downstream_hello") else pure tt
    if not (username == authenticated_username) then raise (new "username mismatch") else pure tt
    role ← wrapping (wrap "failed to get user info") (reading (auth.get_user username))
    permissions ← permissions_of username role
    modify (λ s. record s { subscription = some (username, topics_of permissions) })
    deferred (modify (λ s. record s { subscription = none })) (do
      run_bootstrap_sync codec store (topics_of permissions) permissions
      forward_incremental events)
