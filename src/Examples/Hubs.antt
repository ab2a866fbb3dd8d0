-- ===== src/Examples/Hubs.antt =====
-- The theorems on the hub at a concrete hub.
use mathlib.Core.List.{flat_map}
use tidegauge_backend.Prelude.{
  ℕ, String, List, [], ◌∷◌, ◌++◌, true, false, none, some, ◌≡◌, refl, ◌&&◌, ◌||◌, contains, lookup,
  if◌then◌else◌, ◌==◌, nat_keys, string_keys,
}
use tidegauge_backend.Prelude.Int.{pos}
use tidegauge_backend.Types.{
  StationItem, DataTime, FullItemStatus, UuidStringsMap, eof, station_item_keys,
}
use tidegauge_backend.Exec.{ok, err}
use tidegauge_backend.PubSub.{cancel}
use tidegauge_backend.Relay.{publish_status, item_status_body}
use tidegauge_backend.Relay.Upstream.{Auth, normal_user}
use tidegauge_backend.Relay.Convert.{uuid_strings_map_to_topics}
use tidegauge_backend.Hub.{
  Hub, send_msg, config, broker_data, conn_type_web_browser, conn_type_sync_data, conn_type_any,
  subscribers_of, disconnect_user, disconnect_all, hub_publish, matches,
}
use tidegauge_backend.Hub.Tracking.{
  Call, tracks, untracks, tracked, promise, run_calls, tracked-run_calls,
}
use tidegauge_backend.Hub.Disconnect.{among, among_users, disconnect-cancelled}
use tidegauge_backend.Hub.Availability.{filter_items, update_permissions}
use tidegauge_backend.Hub.Availability.Listed.{names_at, permitted_at, filter_items-permitted}
use tidegauge_backend.Hub.Adapters.{
  data_message, notify_relay, relay_data_message_to_frame, relay_config_message_to_frame,
  stop_frames,
}
use tidegauge_backend.Hub.Permissions.{browses, update_permissions-limited}
use tidegauge_backend.Hub.Forwarding.{
  fresh, type_of, notice_of, broker_of, applied_frame, apply_data_batch-forwarded,
  apply_status_event-forwarded,
}
use tidegauge_backend.Hub.Lifetime.{stop_frames-released}
use tidegauge_backend.Examples.Relays.{
  marks, parse_marks-show_marks, show_marks-named, downstream_store, quiet,
}

abbrev level : StationItem
level = record { station_id = 4; item_name = "level" }

abbrev secret : StationItem
secret = record { station_id = 4; item_name = "secret" }

-- A browser of "eve" is subscriber 1, a data connection of hers subscriber 2.
abbrev small_hub : Hub
small_hub = record {
  data_subscriptions = (1, some (level ∷ secret ∷ [])) ∷ (2, none) ∷ [];
  missing_subscriptions = (2, none) ∷ [];
  status_subscriptions = [];
  config_subscriptions = [];
  heap = λ k. record { waiting = []; buffer = 10; cancelled = false };
  delayed = [];
  subscribers_by_user = ("eve", (1, conn_type_web_browser) ∷ (2, conn_type_sync_data) ∷ []) ∷ [];
}

disconnect-cancelled_example :
    ((disconnect_user "eve" conn_type_any small_hub).heap 1 ≡ (
      if among conn_type_any 1 (subscribers_of "eve" small_hub.subscribers_by_user)
      then cancel (small_hub.heap 1)
      else small_hub.heap 1))
    × ((disconnect_all conn_type_any small_hub).heap 1 ≡ (
        if among_users conn_type_any 1 small_hub.subscribers_by_user
        then cancel (small_hub.heap 1)
        else small_hub.heap 1))
disconnect-cancelled_example = disconnect-cancelled "eve" conn_type_any 1 small_hub

abbrev three_calls : List Call
three_calls = tracks "bob" 3 4 ∷ untracks "eve" 1 ∷ tracks "eve" 5 4 ∷ []

tracked-run_calls_example :
    tracked "eve" 5 (run_calls three_calls small_hub).subscribers_by_user
    ≡ promise "eve" 5 three_calls (tracked "eve" 5 small_hub.subscribers_by_user)
tracked-run_calls_example = tracked-run_calls "eve" 5 three_calls small_hub

abbrev no_users : Hub
no_users = record small_hub { subscribers_by_user = [] }

abbrev permissions : UuidStringsMap
permissions = (4, "level" ∷ []) ∷ []

secret-denied : contains secret (uuid_strings_map_to_topics permissions) ≡ false
unfolding uuid_strings_map_to_topics flat_map
secret-denied = refl

eve-browses : browses 1 (subscribers_of "eve" small_hub.subscribers_by_user) ≡ true
unfolding matches
eve-browses = refl

update_permissions-limited_example :
    let h' = update_permissions (ok (level ∷ [])) "eve" (some permissions) small_hub in
    let m = data_message "data" secret (record { value = 5; millisecond = pos 1 }) in
    (((hub_publish broker_data m (some secret) h').heap 1 ≡ h'.heap 1)
      × (lookup 1 (hub_publish broker_data m (some secret) h').data_subscriptions
          ≡ lookup 1 h'.data_subscriptions))
update_permissions-limited_example =
    update_permissions-limited (ok (level ∷ [])) "eve" permissions small_hub
      (data_message "data" secret (record { value = 5; millisecond = pos 1 })) secret 1
      (refl, (refl, tt)) secret-denied eve-browses

filter_items-permitted_example :
    names_at 4 (filter_items (some (level ∷ [])) [] (level ∷ secret ∷ []))
    ≡ permitted_at 4 (some (level ∷ [])) (level ∷ secret ∷ [])
filter_items-permitted_example = filter_items-permitted 4 (some (level ∷ [])) (level ∷ secret ∷ [])

abbrev sample : DataTime
sample = record { value = 100; millisecond = pos 11 }

abbrev nobody : Auth
nobody = record { get_user = λ u. ok normal_user; get_permissions = λ u. err eof }

apply_data_batch-forwarded_example :
    ((applied_frame marks downstream_store
        (relay_data_message_to_frame marks (data_message (type_of (fresh true)) level sample))
        quiet).notices
      ≡ quiet.notices ++ notice_of (fresh true) level sample ∷ [])
    × (notify_relay nobody (notice_of (fresh true) level sample) small_hub
        ≡ hub_publish
            (broker_of (fresh true))
            (data_message (type_of (fresh true)) level sample)
            (some level)
            small_hub)
apply_data_batch-forwarded_example =
    apply_data_batch-forwarded marks downstream_store (fresh true) level sample quiet 1 2 nobody
      small_hub (parse_marks-show_marks 4) (show_marks-named 4) refl refl

abbrev broken_gauge : FullItemStatus
broken_gauge = record {
  station_id = 4;
  identifier = "tide1";
  log = record {
    row_id = pos 3;
    item_status = record {
      item_name = "level";
      change = record { status = "Abnormal"; changed_at = pos 12 };
    };
  };
}

apply_status_event-forwarded_example :
    (applied_frame marks downstream_store
      (relay_config_message_to_frame marks
        (λ b. err eof)
        (send_msg
          (if true then "MissItemStatus" else "UpdateItemStatus")
          (config (item_status_body broken_gauge))))
      quiet).notices
    ≡ quiet.notices ++ publish_status "UpdateItemStatus" (item_status_body broken_gauge) ∷ []
apply_status_event-forwarded_example =
    apply_status_event-forwarded marks downstream_store true (λ b. err eof) broken_gauge quiet 1
      (parse_marks-show_marks 4) refl refl

stop_frames-released_example :
    let h' = stop_frames "eve" 1 2 small_hub in
    (((j : ℕ)
        → (lookup j h'.config_subscriptions
            ≡ (if 1 == j then none else lookup j small_hub.config_subscriptions))
          × (lookup j h'.status_subscriptions
              ≡ (if 1 == j then none else lookup j small_hub.status_subscriptions))
          × (lookup j h'.data_subscriptions
              ≡ (if 2 == j then none else lookup j small_hub.data_subscriptions))
          × (lookup j h'.missing_subscriptions
              ≡ (if 2 == j then none else lookup j small_hub.missing_subscriptions)))
      × ((other : String) (j : ℕ)
          → tracked other j h'.subscribers_by_user ≡ (
              if "eve" == other && (1 == j || 2 == j)
              then none
              else tracked other j small_hub.subscribers_by_user))
      × ((h'.heap 1).cancelled ≡ true)
      × ((h'.heap 2).cancelled ≡ true))
stop_frames-released_example = stop_frames-released "eve" 1 2 small_hub
