-- ===== src/Client/Latest.antt =====
-- tide_client/syncv2/session.go: `recvLatestFrames`.
use tidegauge_backend.Prelude.{
  String, List, [], ◌∷◌, Bool, true, false, ◌&&◌, if◌then◌else◌, ◌⊎◌, inl, inr,
}
use tidegauge_backend.Prelude.Int.{ℤ, pos}
use tidegauge_backend.Types.{Error, new, UnixMs}
use tidegauge_backend.Wire.{
  StationMessage, client_hello, server_hello, station_info, items_latest, status_latest, data_batch,
  item_status_batch, rpi_status, snapshot_request, snapshot_response, error_frame, unset,
}
use tidegauge_backend.Exec.{Exec, pure, raise, gets, modify, ◌>>=◌, ◌>>◌}
use tidegauge_backend.Client.{Link, recv}

-- The local variables of the loop.
pub record Latest : Type 0 where
  pub got_items : Bool
  pub got_status : Bool
  pub items : List (String × UnixMs)
  pub row_id : ℤ

abbrev pub nothing_yet : Latest
nothing_yet = record { got_items = false; got_status = false; items = []; row_id = pos 0 }

abbrev pub is_done : Latest → Bool
is_done l = l.got_items && l.got_status

-- The switch on one frame: the new locals, or the error.
unfoldable pub take_latest : StationMessage → Latest → Error ⊎ Latest
take_latest (items_latest m) l = inr (record l { got_items = true; items = m })
take_latest (status_latest n) l = inr (record l { got_status = true; row_id = n })
take_latest (error_frame e) l = inl (new e.message)
take_latest (client_hello _) l = inl (new "unexpected frame while waiting latest state")
take_latest (server_hello _) l = inl (new "unexpected frame while waiting latest state")
take_latest (station_info _) l = inl (new "unexpected frame while waiting latest state")
take_latest (data_batch _) l = inl (new "unexpected frame while waiting latest state")
take_latest (item_status_batch _) l = inl (new "unexpected frame while waiting latest state")
take_latest (rpi_status _) l = inl (new "unexpected frame while waiting latest state")
take_latest (snapshot_request _) l = inl (new "unexpected frame while waiting latest state")
take_latest (snapshot_response _) l = inl (new "unexpected frame while waiting latest state")
take_latest unset l = inl (new "unexpected frame while waiting latest state")

abbrev pub took : Error ⊎ Latest → Exec Link Latest
took (inl e) = raise e
took (inr l) = pure l

-- The loop `for !gotItems || !gotStatus { … }`; its list is what waits in the inbox.
unfoldable pub recv_latest : List StationMessage → Latest → Exec Link Latest
recv_latest [] l = if is_done l then pure l else (do frame ← recv; took (take_latest frame l))
recv_latest (frame ∷ rest) l = if is_done l then pure l else (do
  modify (λ s. record s { inbox = rest })
  l' ← took (take_latest frame l)
  recv_latest rest l')

unfoldable pub recv_latest_frames : Exec Link Latest
recv_latest_frames = do frames ← gets (λ s. s.inbox); recv_latest frames nothing_yet
