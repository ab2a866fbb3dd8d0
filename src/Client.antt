-- ===== src/Client.antt =====
-- tide_client/syncv2: the state of one session of the station client, and what it uses (client.go).
pub mod Codec
pub mod Replay
pub mod Latest
pub mod Session
use tidegauge_backend.Prelude.{ℕ, String, List, [], ◌∷◌, ◌++◌, Bool, Option, none, some}
use tidegauge_backend.Prelude.Int.{ℤ}
use tidegauge_backend.Types.{Error, UnixMs, DataTime, RowIdItemStatus, StationInfo}
use tidegauge_backend.Wire.{StationMessage, Bytes}
use tidegauge_backend.Exec.{Exec, Result, ok, err}

-- `Deps`: the readings of the local database during the replay (which holds the ingest lock), and the
-- camera. A snapshot is fetched by a library.
pub record Deps : Type 0 where
  pub station_info : StationInfo
  pub get_data_history : String → UnixMs → Result (List DataTime)
  pub get_item_status_log_after : ℤ → Result (List RowIdItemStatus)
  pub get_camera : Option (String → Option (String × String × String))
  pub snapshot : Option (String → String → String → Result Bytes)

-- What `Recv` will return and the error after it; the faults of the sends to come (`none` sends, and a
-- context that is done is the fault `canceled` or `deadline_exceeded`); what was sent; whether the
-- session listens to the local broker, and whether it holds the ingest lock.
pub record Link : Type 0 where
  pub inbox : List StationMessage
  pub closed : Error
  pub faults : List (Option Error)
  pub outbox : List StationMessage
  pub subscribed : Bool
  pub ingest_locked : Bool

unfoldable pub received : List StationMessage → Exec Link StationMessage
received [] s = (err s.closed, s)
received (frame ∷ rest) s = (ok frame, record s { inbox = rest })

-- `stream.Recv()`.
unfoldable pub recv : Exec Link StationMessage
unfolding received
recv s = received s.inbox s

unfoldable pub sent : StationMessage → List (Option Error) → Exec Link Unit
sent frame [] s = (ok tt, record s { outbox = s.outbox ++ frame ∷ [] })
sent frame (none ∷ rest) s = (ok tt, record s { outbox = s.outbox ++ frame ∷ []; faults = rest })
sent frame (some e ∷ rest) s = (err e, record s { faults = rest })

-- session.go, `sendMainFrame`.
unfoldable pub send_main_frame : StationMessage → Exec Link Unit
unfolding sent
send_main_frame frame s = sent frame s.faults s
