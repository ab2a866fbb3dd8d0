-- ===== src/Station/Snapshot.antt =====
-- tide_server/syncv2/station/server.go: `RequestSnapshot`, over a command stream to the station.
pub mod Delivered
use tidegauge_backend.Prelude.{
  ℕ, ◌+◌, ◌-◌, String, List, [], ◌∷◌, ◌++◌, Bool, Option, none, some, ltb, lookup, nat_keys,
  string_keys, ◌==◌, if◌then◌else◌,
}
use tidegauge_backend.Types.{Uuid, Error, new, deadline_exceeded, is_eof}
use tidegauge_backend.Wire.{
  StationMessage, SnapshotResponse, snapshot_request, snapshot_response, Bytes,
}
use tidegauge_backend.Text.{trim_space}
use tidegauge_backend.Exec.{Exec, Result, ok, err, pure, raise, ◌>>=◌, ◌>>◌, deferred}

-- The connections of the server, what opening a stream and sending on it will return (`none` works), how
-- many command streams are open, and what was sent on them.
pub record Commands : Type 0 where
  pub registry : List (Uuid × ℕ)
  pub open_fault : Option Error
  pub send_fault : Option Error
  pub open_streams : ℕ
  pub sent : List StationMessage

-- What the `select` finds ready, in that order: the end of the connection, the timer, or what `Recv`
-- returned.
pub data Ready : Type 0 where
  connection_done : Ready
  timer_fired : Ready
  received : Result StationMessage → Ready

abbrev pub station_not_connected : Error
station_not_connected = new "station not connected"

opened : Option Error → Exec Commands Unit
opened (some e) c = (err e, c)
opened none c = (ok tt, record c { open_streams = c.open_streams + 1 })

-- `c.openCommandStream()`.
unfoldable pub open_command_stream : Exec Commands Unit
unfolding opened
open_command_stream c = opened c.open_fault c

unfoldable pub close_stream : Exec Commands Unit
close_stream c = (ok tt, record c { open_streams = c.open_streams - 1 })

sent_with : StationMessage → Option Error → Exec Commands Unit
sent_with frame (some e) c = (err e, c)
sent_with frame none c = (ok tt, record c { sent = c.sent ++ frame ∷ [] })

unfoldable pub send_command : StationMessage → Exec Commands Unit
unfolding sent_with
send_command frame c = sent_with frame c.send_fault c

picture : Bytes → Result Bytes
picture [] = err (new "empty snapshot")
picture (b ∷ bs) = ok (b ∷ bs)

-- The frame that came back.
unfoldable pub picture_of : StationMessage → Result Bytes
unfolding picture
picture_of (snapshot_response (some r)) =
    if r.error == "" then picture r.image else err (new r.error)
picture_of _ = err (new "expected camera_snapshot_response")

abbrev pub closed_early : Error → Error
closed_early e = if is_eof e then new "snapshot stream closed" else e

-- The first that is ready decides; without a timeout the timer never is, and where nothing gets ready
-- the call does not return (`none`).
unfoldable pub select_reply : ℕ → List Ready → Option (Result Bytes)
select_reply timeout [] = none
select_reply timeout (connection_done ∷ rest) = some (err (new "station connection closed"))
select_reply timeout (timer_fired ∷ rest) =
    let later = select_reply timeout rest in
    if ltb 0 timeout then some (err deadline_exceeded) else later
select_reply timeout (received (ok frame) ∷ rest) = some (picture_of frame)
select_reply timeout (received (err e) ∷ rest) = some (err (closed_early e))

exchange : String → ℕ → List Ready → Exec Commands (Option (Result Bytes))
exchange camera_name timeout events = do
  send_command (snapshot_request (some camera_name))
  pure (select_reply timeout events)

-- `stationConn.requestSnapshot`. The result is that of the call, where it returns.
unfoldable pub request_on : String → ℕ → List Ready → Exec Commands (Option (Result Bytes))
unfolding exchange
request_on camera_name timeout events = do
  open_command_stream
  deferred close_stream (exchange camera_name timeout events)

-- `registry.Load`.
connected : Option ℕ → String → ℕ → List Ready → Exec Commands (Option (Result Bytes))
connected none camera_name timeout events = raise station_not_connected
connected (some conn) camera_name timeout events = request_on camera_name timeout events

unfoldable pub request_snapshot :
    Uuid → String → ℕ → List Ready → Exec Commands (Option (Result Bytes))
unfolding connected
request_snapshot station_id camera_name timeout events c =
    if trim_space camera_name == ""
    then (err (new "empty camera name"), c)
    else connected (lookup station_id c.registry) camera_name timeout events c
