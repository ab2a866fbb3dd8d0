-- ===== src/Station.antt =====
-- tide_server/syncv2/station: the interface to the database (store.go) and the state of one station
-- session. The session's operations stand in the modules below.
pub mod Server
pub mod Snapshot
pub mod StatusBatch
pub mod Stream
pub mod Registered
pub mod Refused
pub mod Ingest
pub mod DbStore
use tidegauge_backend.Prelude.{
  ℕ, String, List, [], ◌∷◌, ◌++◌, Bool, true, false, Option, none, some,
}
use tidegauge_backend.Prelude.Int.{ℤ}
use tidegauge_backend.Types.{
  Uuid, UnixMs, Float64, Status, Error, StringMapMap, StationInfo, DataTime, StationItem,
  FullItemStatus, StationStatus, RpiStatusTime,
}
use tidegauge_backend.Wire.{StationMessage}
use tidegauge_backend.Exec.{Exec, Result, ok, err}

-- `Store` and `InfoSyncer`, over a database of type `D`. A `bool` says whether a row changed.
pub record StationStore (D : Type 0) : Type 0 where
  pub station_id_by_identifier : String → Exec D Uuid
  pub set_station_ip : Uuid → String → Exec D Unit
  pub items_latest : Uuid → StringMapMap → Exec D (List (String × UnixMs))
  pub latest_status_log_row_id : Uuid → Exec D ℤ
  pub update_station_status : Uuid → Status → UnixMs → Exec D Bool
  pub save_rpi_status : Uuid → RpiStatusTime → Exec D Unit
  pub update_item_status : Uuid → String → Status → UnixMs → Exec D Bool
  pub save_data_history : Uuid → String → Float64 → UnixMs → Exec D Bool
  pub save_item_status_log : Uuid → ℤ → String → Status → UnixMs → Exec D Bool
  pub update_and_save_status_log : Uuid → ℤ → String → Status → UnixMs → Exec D Bool
  pub sync_station_info : Uuid → StationInfo → Exec D Unit

-- The calls of `Notifier`.
pub data Notice : Type 0 where
  publish_miss_data : StationItem → DataTime → Notice
  publish_realtime_data : StationItem → DataTime → Bool → Notice
  publish_miss_item_status : FullItemStatus → Notice
  publish_update_item_status : FullItemStatus → Notice
  publish_station_status : StationStatus → Notice

-- The world of one `StreamStation`: the database, the frames that `Recv` will return and the error
-- that it returns after them, the faults of the `Send` calls to come (`none` sends), what was sent and
-- published, and the connections registered with the server.
pub record Session (D : Type 0) : Type 0 where
  pub store : D
  pub inbox : List StationMessage
  pub closed : Error
  pub faults : List (Option Error)
  pub outbox : List StationMessage
  pub notices : List Notice
  pub registry : List (Uuid × ℕ)

module _ {D : Type 0} where
  unfoldable pub on_store : {A : Type 0} → Exec D A → Exec (Session D) A
  on_store m s = let (r, d) = m s.store in (r, record s { store = d })

  unfoldable pub received : List StationMessage → Exec (Session D) StationMessage
  received [] s = (err s.closed, s)
  received (frame ∷ rest) s = (ok frame, record s { inbox = rest })

  -- `stream.Recv()`.
  unfoldable pub recv : Exec (Session D) StationMessage
  unfolding received
  recv s = received s.inbox s

  unfoldable pub sent : StationMessage → List (Option Error) → Exec (Session D) Unit
  sent frame [] s = (ok tt, record s { outbox = s.outbox ++ frame ∷ [] })
  sent frame (none ∷ rest) s = (ok tt, record s { outbox = s.outbox ++ frame ∷ []; faults = rest })
  sent frame (some e ∷ rest) s = (err e, record s { faults = rest })

  -- `stream.Send(frame)`.
  unfoldable pub send : StationMessage → Exec (Session D) Unit
  unfolding sent
  send frame s = sent frame s.faults s

  unfoldable pub notify : Notice → Exec (Session D) Unit
  notify n s = (ok tt, record s { notices = s.notices ++ n ∷ [] })
