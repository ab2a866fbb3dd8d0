-- ===== src/Station/Snapshot/Delivered.antt =====
-- `RequestSnapshot` of tide_server/syncv2/station/server.go and the answer of the station's
-- `handleCommandStream` (tide_client/syncv2/session.go), put together.
use tidegauge_backend.Prelude.{
  ℕ, ◌+◌, ◌-◌, String, ◌≡◌, refl, false, Option, none, some, List, [], ◌∷◌, ◌++◌, ◌==◌, string_keys,
  nat_keys, lookup, arith,
}
use tidegauge_backend.Types.{Error}
use tidegauge_backend.Wire.{StationMessage, snapshot_request, Bytes}
use tidegauge_backend.Text.{trim_space}
use tidegauge_backend.Exec.{Result, ok, pure, ◌>>=◌, deferred}
use tidegauge_backend.Client.{Deps, Link, send_main_frame, sent}
use tidegauge_backend.Client.Codec.{build_snapshot_response_frame}
use tidegauge_backend.Client.Session.{handle_command}
use tidegauge_backend.Station.Snapshot.{
  Commands, Ready, received, open_command_stream, opened, close_stream, send_command, sent_with,
  picture_of, picture, select_reply, exchange, request_on, connected, request_snapshot,
}

-- The frame with which the station answers a request.
abbrev pub answer : (Error → String) → Deps → String → StationMessage
answer error_text deps camera_name =
    build_snapshot_response_frame error_text (some camera_name) deps.get_camera deps.snapshot

-- If the station is connected and knows the camera, and its picture is fetched, then the station
-- answers the request with one frame, and the call of RequestSnapshot that this frame reaches returns
-- the picture, having sent just that request and closed its stream.
pub request_snapshot-handle_command :
    (error_text : Error → String) (deps : Deps) (link : Link) (station_id conn : ℕ)
    (camera_name : String) (timeout : ℕ) (later : List Ready) (c : Commands)
    (get_camera : String → Option (String × String × String))
    (snapshot : String → String → String → Result Bytes) (url username password : String) (b : ℕ)
    (bs : Bytes)
    → (trim_space camera_name == "") ≡ false
    → (camera_name == "") ≡ false
    → lookup station_id c.registry ≡ some conn
    → c.open_fault ≡ none
    → c.send_fault ≡ none
    → link.faults ≡ []
    → deps.get_camera ≡ some get_camera
    → deps.snapshot ≡ some snapshot
    → get_camera camera_name ≡ some (url, username, password)
    → snapshot url username password ≡ ok (b ∷ bs)
    → (handle_command error_text deps (snapshot_request (some camera_name)) link
        ≡ (ok tt, record link { outbox = link.outbox ++ answer error_text deps camera_name ∷ [] }))
      × (request_snapshot station_id camera_name timeout
            (received (ok (answer error_text deps camera_name)) ∷ later)
            c
          ≡ (
            ok (some (ok (b ∷ bs))),
            record c { sent = c.sent ++ snapshot_request (some camera_name) ∷ [] },
          ))
unfolding handle_command send_main_frame sent request_snapshot connected request_on
    open_command_stream opened close_stream exchange send_command sent_with select_reply picture_of
    picture build_snapshot_response_frame ◌>>=◌ pure deferred
request_snapshot-handle_command error_text deps link station_id conn camera_name timeout later c
      get_camera snapshot url username password b bs trimmed named there opens sends calm camera
      fetch found taken =
    let closed : c.open_streams + 1 - 1 ≡ c.open_streams = omega arith in
    (
      rw calm refl,
      rw (trimmed, there, opens, sends, named, camera, fetch, found, taken) (rw closed refl),
    )
