-- ===== src/Hub.antt =====
-- tide_server/controller/sync_hub.go: the hub, which holds the server's brokers and knows the
-- subscribers of each user. The four brokers share the heap of subscribers; what was handed to the
-- delayed broker is the list of its calls. A Go map is ranged over in the order of its list.
pub mod Tracking
pub mod Disconnect
pub mod Availability
pub mod Adapters
pub mod Permissions
pub mod Forwarding
pub mod Lifetime
use Prim.Native.Nat.{bit_and}
use tidegauge_backend.Prelude.{
  ℕ, ◌^◌, ◌-◌, String, List, [], ◌∷◌, ◌++◌, Bool, not, Option, none, some, lookup, insert, delete,
  nat_eq, nat_keys, string_keys, if◌then◌else◌,
}
use tidegauge_backend.Types.{UuidStringsMap, StationItem, DataTime, station_item_keys}
use tidegauge_backend.Relay.{ConfigBody}
use tidegauge_backend.PubSub.{
  Subscriber, Broker, Topics, cancel, write, subscribe, unsubscribe, restrict_topics, publish,
}

-- tide_server/controller/sync_common.go: the messages, and the body of a `SendMsgStruct` (`any`).
pub record ForwardData : Type 0 where
  pub type_name : String
  pub station_item : StationItem
  pub data_time : DataTime

pub data Body : Type 0 where
  config : ConfigBody → Body
  available : UuidStringsMap → Body

pub data Message : Type 0 where
  forward : ForwardData → Message
  send_msg : String → Body → Message

-- The kinds of connections are bits of an `int`; -1 has all its 64 bits set.
abbrev pub conn_type_web_browser : ℕ
conn_type_web_browser = 1

abbrev pub conn_type_sync_data : ℕ
conn_type_sync_data = 2

abbrev pub conn_type_sync_config : ℕ
conn_type_sync_config = 4

abbrev pub conn_type_any : ℕ
conn_type_any = 2 ^ 64 - 1

-- `mask&connType != 0`.
unfoldable pub matches : ℕ → ℕ → Bool
matches mask conn_type = not (nat_eq (bit_and mask conn_type) 0)

abbrev pub Subscriptions : Type 0
Subscriptions = List (ℕ × Topics StationItem)

pub record Hub : Type 0 where
  pub data_subscriptions : Subscriptions
  pub missing_subscriptions : Subscriptions
  pub status_subscriptions : Subscriptions
  pub config_subscriptions : Subscriptions
  pub heap : ℕ → Subscriber Message
  pub delayed : List (Message × Option StationItem)
  pub subscribers_by_user : List (String × List (ℕ × ℕ))

pub data BrokerKind : Type 0 where
  broker_data broker_missing_data broker_status broker_config other_kind : BrokerKind

abbrev pub HubBroker : Type 0
HubBroker = Broker Message StationItem

-- `brokerByKind`, and the hub after a call of the broker; another kind has none and nothing happens.
pub on_broker : BrokerKind → (HubBroker → HubBroker) → Hub → Hub
on_broker broker_data f h =
    let b = f (record { subscriptions = h.data_subscriptions; heap = h.heap }) in
    record h { data_subscriptions = b.subscriptions; heap = b.heap }
on_broker broker_missing_data f h =
    let b = f (record { subscriptions = h.missing_subscriptions; heap = h.heap }) in
    record h { missing_subscriptions = b.subscriptions; heap = b.heap }
on_broker broker_status f h =
    let b = f (record { subscriptions = h.status_subscriptions; heap = h.heap }) in
    record h { status_subscriptions = b.subscriptions; heap = b.heap }
on_broker broker_config f h =
    let b = f (record { subscriptions = h.config_subscriptions; heap = h.heap }) in
    record h { config_subscriptions = b.subscriptions; heap = b.heap }
on_broker other_kind f h = h

pub hub_publish : BrokerKind → Message → Option StationItem → Hub → Hub
hub_publish kind message topic h = on_broker kind (publish message topic) h

pub publish_delayed_data : Message → Option StationItem → Hub → Hub
publish_delayed_data message topic h = record h { delayed = h.delayed ++ (message, topic) ∷ [] }

pub hub_subscribe : BrokerKind → ℕ → Topics StationItem → Hub → Hub
hub_subscribe kind k topics h = on_broker kind (subscribe k topics) h

pub hub_unsubscribe : BrokerKind → ℕ → Hub → Hub
hub_unsubscribe kind k h = on_broker kind (unsubscribe k) h

-- A nil map, which holds nothing, where there is none.
abbrev pub or_nothing : Option (List (ℕ × ℕ)) → List (ℕ × ℕ)
or_nothing none = []
or_nothing (some subscribers) = subscribers

-- `h.subscribersByUser[username]`.
abbrev pub subscribers_of : String → List (String × List (ℕ × ℕ)) → List (ℕ × ℕ)
subscribers_of username m = or_nothing (lookup username m)

pub track_subscriber : String → ℕ → ℕ → Hub → Hub
track_subscriber username k conn_type h =
    let own = insert k conn_type (subscribers_of username h.subscribers_by_user) in
    record h { subscribers_by_user = insert username own h.subscribers_by_user }

-- `delete` on what is there, and then the whole entry where nothing is left of it.
pub left_over : String → List (ℕ × ℕ) → List (String × List (ℕ × ℕ)) → List (String × List (ℕ × ℕ))
left_over username [] m = delete username m
left_over username (s ∷ own) m = insert username (s ∷ own) m

pub untrack_subscriber : String → ℕ → Hub → Hub
unfolding left_over
untrack_subscriber username k h =
    let own = delete k (subscribers_of username h.subscribers_by_user) in
    record h { subscribers_by_user = left_over username own h.subscribers_by_user }

-- `subscriber.Cancel()`.
pub cancel_at : ℕ → Hub → Hub
cancel_at k h = record h { heap = write h.heap k (cancel (h.heap k)) }

pub cancel_matching : ℕ → List (ℕ × ℕ) → Hub → Hub
cancel_matching mask [] h = h
cancel_matching mask ((k, conn_type) ∷ rest) h =
    cancel_matching mask rest (if matches mask conn_type then cancel_at k h else h)

pub disconnect_user : String → ℕ → Hub → Hub
unfolding cancel_matching
disconnect_user username mask h =
    cancel_matching mask (subscribers_of username h.subscribers_by_user) h

cancel_users : ℕ → List (String × List (ℕ × ℕ)) → Hub → Hub
unfolding cancel_matching
cancel_users mask [] h = h
cancel_users mask ((username, subscribers) ∷ rest) h =
    cancel_users mask rest (cancel_matching mask subscribers h)

pub disconnect_all : ℕ → Hub → Hub
unfolding cancel_users
disconnect_all mask h = cancel_users mask h.subscribers_by_user h
