-- ===== src/Hub/Availability.antt =====
-- tide_server/controller/sync_hub.go: the available items that a user is told of, and how they are
-- sent to the configuration connections (`UpdatePermissions`, `BroadcastAvailableChange`,
-- `BroadcastAddItems`).
pub mod Listed
use tidegauge_backend.Prelude.{
  ℕ, String, List, [], ◌∷◌, Bool, Option, none, some, lookup, insert, nat_keys, if◌then◌else◌,
}
use tidegauge_backend.Types.{UuidStringsMap, StationItem, station_item_keys}
use tidegauge_backend.Exec.{Result, ok, err}
use tidegauge_backend.PubSub.{Subscriber, Topics, cancel, offer, write, restrict_topics}
use tidegauge_backend.Relay.Convert.{uuid_strings_map_to_topics}
use tidegauge_backend.Relay.Upstream.{Auth, Role, normal_user, other_role}
use tidegauge_backend.Relay.Upstream.Frames.{append_name, is_permitted}
use tidegauge_backend.Hub.{
  Hub, Message, Body, send_msg, available, matches, conn_type_web_browser, conn_type_sync_data,
  conn_type_sync_config, subscribers_of, cancel_at, on_broker, broker_data,
}

-- The loops that fill `filteredAvailableItems`.
unfoldable pub filter_items :
    Topics StationItem → UuidStringsMap → List StationItem → UuidStringsMap
filter_items allowed m [] = m
filter_items allowed m (si ∷ rest) =
    filter_items allowed
      (if is_permitted allowed si
        then insert si.station_id (append_name (lookup si.station_id m) si.item_name) m
        else m)
      rest

-- `select { case subscriber.Ch <- msg: default: subscriber.Cancel() }`.
unfoldable pub offer_or_cancel : Message → Subscriber Message → Subscriber Message
offer_or_cancel msg s = elim (offer msg s) [ none ↦ cancel s | some s' ↦ s' ]

unfoldable pub send_all : Message → List ℕ → Hub → Hub
send_all msg [] h = h
send_all msg (k ∷ rest) h =
    send_all msg rest (record h { heap = write h.heap k (offer_or_cancel msg (h.heap k)) })

unfoldable pub cancel_all : List ℕ → Hub → Hub
cancel_all [] h = h
cancel_all (k ∷ rest) h = cancel_all rest (cancel_at k h)

-- The subscribers of a user whose connection is one for the configuration.
unfoldable pub config_subscribers : List (ℕ × ℕ) → List ℕ
config_subscribers [] = []
config_subscribers ((k, conn_type) ∷ rest) =
    let more = config_subscribers rest in
    if matches conn_type_sync_config conn_type then k ∷ more else more

abbrev pub update_available : UuidStringsMap → Message
update_available items = send_msg "update_available" (available items)

unfoldable pub allowed_topics : Option UuidStringsMap → Topics StationItem
allowed_topics none = none
allowed_topics (some permissions) = some (uuid_strings_map_to_topics permissions)

-- One turn of the first loop of `UpdatePermissions`, but for the list of configuration subscribers.
unfoldable pub limit : Topics StationItem → ℕ → ℕ → Hub → Hub
limit allowed k conn_type h =
    let h' =
      if matches conn_type_web_browser conn_type
      then on_broker broker_data (restrict_topics k allowed) h
      else h in
    if matches conn_type_sync_data conn_type then cancel_at k h' else h'

unfoldable pub limit_all : Topics StationItem → List (ℕ × ℕ) → Hub → Hub
limit_all allowed [] h = h
limit_all allowed ((k, conn_type) ∷ rest) h = limit_all allowed rest (limit allowed k conn_type h)

-- What follows that loop, with what `db.GetAvailableItems` returns.
unfoldable pub announce : Topics StationItem → Result (List StationItem) → List ℕ → Hub → Hub
announce allowed items [] h = h
announce allowed (err e) (k ∷ ks) h = cancel_all (k ∷ ks) h
announce allowed (ok items) (k ∷ ks) h =
    send_all (update_available (filter_items allowed [] items)) (k ∷ ks) h

unfoldable pub update_permissions :
    Result (List StationItem) → String → Option UuidStringsMap → Hub → Hub
update_permissions items username permissions h =
    let allowed = allowed_topics permissions in
    let subscribers = subscribers_of username h.subscribers_by_user in
    announce allowed items (config_subscribers subscribers) (limit_all allowed subscribers h)

-- The topics of a user in `BroadcastAvailableChange`: only a normal user has permissions.
unfoldable pub topics_of_role : Auth → String → Role → Result (Topics StationItem)
topics_of_role auth username other_role = ok none
topics_of_role auth username normal_user = elim (auth.get_permissions username) [
  | err e ↦ err e
  | ok permissions ↦ ok (some (uuid_strings_map_to_topics permissions))
]

unfoldable pub topics_of_user : Auth → String → Result (Topics StationItem)
topics_of_user auth username = elim (auth.get_user username) [
  | err e ↦ err e
  | ok role ↦ topics_of_role auth username role
]

tell : List StationItem → Result (Topics StationItem) → List ℕ → Hub → Hub
tell items (err e) ks h = cancel_all ks h
tell items (ok allowed) ks h = send_all (update_available (filter_items allowed [] items)) ks h

-- The body of the loop over the users; a user without a configuration connection is not asked for.
unfoldable pub tell_user : Auth → List StationItem → String → List ℕ → Hub → Hub
unfolding tell
tell_user auth items username [] h = h
tell_user auth items username (k ∷ ks) h = tell items (topics_of_user auth username) (k ∷ ks) h

unfoldable pub tell_users : Auth → List StationItem → List (String × List (ℕ × ℕ)) → Hub → Hub
tell_users auth items [] h = h
tell_users auth items ((username, subscribers) ∷ rest) h =
    tell_users auth items rest (tell_user auth items username (config_subscribers subscribers) h)

-- The two nested loops over the map go over its items one by one.
unfoldable pub broadcast_available_change : Auth → UuidStringsMap → Hub → Hub
broadcast_available_change auth m h =
    tell_users auth (uuid_strings_map_to_topics m) h.subscribers_by_user h

unfoldable pub broadcast_add_items : Auth → Result (List StationItem) → Hub → Hub
broadcast_add_items auth (err e) h = h
broadcast_add_items auth (ok items) h =
    broadcast_available_change auth (filter_items none [] items) h
