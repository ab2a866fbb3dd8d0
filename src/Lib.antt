-- ===== src/Lib.antt =====
-- tidegauge-backend: a model of its synchronisation, from a tide gauge station to the server and
-- from one server to the next, and of the brokers that it publishes to.
--
-- The parts, and how they interact. A station (tide_client) measures, stores the values in its own
-- database and publishes them to a local broker. A session of `tide_client/syncv2` connects it to
-- the server: hello, station information, the server's latest times, the replay of what the server
-- misses, and then what the broker publishes. On the server `tide_server/syncv2/station` receives
-- these frames, writes to the database through `tide_server/db` and publishes what is new. A second
-- server follows the first through `tide_server/syncv2/relay`, whose upstream side answers and
-- whose downstream side applies.
--
-- Files:
-- - Prelude, Types, Wire, Exec, Text: helpers; common/type.go, common/const.go and
--   pkg/custype/time.go; the station half of proto/sync/v2/sync_v2.proto; functions that change state
--   and return an error; strings.TrimSpace.
-- - PubSub: pkg/pubsub/pubsub.go. Subscribe, Unsubscribe, RestrictTopics and Publish are subscribe,
--   unsubscribe, restrict_topics and publish on a record Broker, and PubSub/Seats is the broker seen
--   from one subscriber; below it PubSub/Delayed is
--   DelayedBroker as the interleavings (Step, Reach) of dispatchLoop with one caller.
-- - Db: the tables of tide_server/schema.sql and the functions of tide_server/db/history.go, status.go,
--   rpi.go and station.go that a session calls (Db/History, Db/StatusLog, Db/Stations). An SQL
--   statement is one step.
-- - Station: tide_server/syncv2/station. StationStore is the interface Store (store.go), db_store fills
--   it (store_db.go); Station/Server, Station/StatusBatch and Station/Stream are server.go and
--   registry.go, with stream_station for StreamStation; Station/Snapshot is RequestSnapshot.
-- - Client: tide_client/syncv2. Client/Codec is codec.go; Client/Replay, Client/Latest and
--   Client/Session are session.go, with run_on_conn for runOnConn from the client_hello on.
-- - Relay: tide_server/syncv2/relay. Relay/Wire is the relay half of the proto file, Relay.antt holds
--   types.go, Relay/Convert, Relay/Apply and Relay/Events are apply.go, Relay/Upstream is upstream.go
--   and Relay/Downstream is downstream.go; Relay/DbStore fills the downstream's interface from Db
--   (store_db.go), and Relay/CatchUp puts both sides together.
-- - Hub: tide_server/controller/sync_hub.go and the message types of sync_common.go. Hub.antt is the state
--   SyncHub with its brokers and connections, Hub/Availability what users are told of,
--   Hub/Adapters the notifiers and the frame source of syncv2_adapters.go, which join the sessions of
--   Station and Relay to the hub.
-- - Device: tide_client/device. Device/Counter is i2c_pcf8583.go over an I2C bus.
--   Device/Sdi12 is tide_client/protocol/sdi12/session.go over connWrap/bus.go.
-- - Sync: SyncStationInfo of tide_server/controller/station_sync_func.go, over the devices and items of
--   tide_server/db/device.go and item.go; Sync/Available is the column of the upstreams that make an item
--   available.
-- - Gauge: tide_client/db as a LocalDb whose statements may fail; Gauge/Receive is receiveData of
--   tide_client/controller/common.go with the start of itemsStatus, Gauge/Disk
--   disk_clean.go over a tree of files.
-- - Examples: the theorems at concrete inputs.
--
-- State and errors. A Go function that changes state is an Exec: from a state to a result and a
-- state, so what was done before an error stays done. What a connection will receive and which
-- sends will fail is part of the state, so a theorem about every state is one about every peer. The
-- loops that receive until an error are structural recursions over the frames that wait. Fuel is used
-- only for the values of an SDI-12 reply, where the number of values that the line can still send
-- is a bound that is enough.
--
-- Parameters. The text of a UUID (github.com/google/uuid) and JSON (encoding/json) are the fields
-- of Codec in Relay.antt; users and permissions are Auth in Relay/Upstream; the client's database,
-- the camera and what fetches a picture are Deps in Client; SyncStationInfo is an argument of
-- db_store, and the methods on stations, devices, items and records are one of
-- db_downstream_store in Relay/DbStore; the I2C bus (periph.io) is I2cDev, the line below an
-- SDI-12 bus is Line, and JSON of other bodies is an argument in
-- Hub/Adapters. A theorem that relies on one of them says so in its hypotheses.
--
-- Values. Bytes and `int32` keep their wrap-around (% 256, % 2 ^ 32) in Device/Counter. A UUID and
-- a float64 are natural numbers that are only stored, compared and forwarded. Times and row numbers
-- are integers without a bound: the code only compares and copies them.
--
-- Left out: the HTTP upgrade, yamux and the protobuf encoding; concurrency but for DelayedBroker
-- and the select loops, whose events come as a list; logging; the
-- REST interface, the other device drivers and the databases' own SQL engine.
pub mod Prelude
pub mod Types
pub mod Wire
pub mod Exec
pub mod Text
pub mod PubSub
pub mod Db
pub mod Station
pub mod Client
pub mod Relay
pub mod Hub
pub mod Device
pub mod Gauge
pub mod Sync
pub mod Examples
