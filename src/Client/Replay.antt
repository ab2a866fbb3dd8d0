-- ===== src/Client/Replay.antt =====
-- tide_client/syncv2/session.go: `sendReplayData` and `sendReplayStatus`.
pub mod Batches
pub mod Whole
use tidegauge_backend.Prelude.{
  ℕ, String, List, [], ◌∷◌, ◌++◌, Bool, true, false, Option, none, some, if◌then◌else◌, leb, ltb,
  length, lookup, string_keys, map,
}
use tidegauge_backend.Prelude.Int.{ℤ, pos}
use tidegauge_backend.Types.{DataTime, UnixMs, StringMapMap, RowIdItemStatus}
use tidegauge_backend.Wire.{StationMessage, data_batch, item_status_batch, normal_kind, DataPoint}
use tidegauge_backend.Exec.{Exec, Result, ok, err, pure, ◌>>=◌, ◌>>◌}
use tidegauge_backend.Client.{Deps, Link, send_main_frame}
use tidegauge_backend.Client.Codec.{log_of}

abbrev pub replay_data_batch_size : ℕ
replay_data_batch_size = 128

abbrev pub replay_batch : List DataPoint → StationMessage
replay_batch points = data_batch (record { replay = true; points = points })

abbrev pub replay_point : String → DataTime → DataPoint
replay_point item_name d = record {
  item_name = item_name;
  value = d.value;
  unix_ms = d.millisecond;
  kind = normal_kind;
}

-- A batch that is full is sent, and the next begins empty.
unfoldable pub flush_full : List DataPoint → Exec Link (List DataPoint)
flush_full points =
    if leb replay_data_batch_size (length points)
    then (do send_main_frame (replay_batch points); pure [])
    else pure points

unfoldable pub replay_rows : String → List DataPoint → List DataTime → Exec Link (List DataPoint)
replay_rows item_name points [] = pure points
replay_rows item_name points (d ∷ ds) = do
  left ← flush_full (points ++ replay_point item_name d ∷ [])
  replay_rows item_name left ds

-- `itemsLatest[itemName]`: a missing item reads 0.
abbrev pub latest_or_zero : Option UnixMs → UnixMs
latest_or_zero none = pos 0
latest_or_zero (some t) = t

-- The result of a reading, in the session.
abbrev pub reading : {A : Type 0} → Result A → Exec Link A
reading r s = (r, s)

unfoldable pub replay_items :
    Deps
    → List (String × UnixMs)
    → List DataPoint
    → List (String × String)
    → Exec Link (List DataPoint)
replay_items deps latest points [] = pure points
replay_items deps latest points ((item_type, item_name) ∷ rest) = do
  ds ← reading (deps.get_data_history item_name (latest_or_zero (lookup item_name latest)))
  left ← replay_rows item_name points ds
  replay_items deps latest left rest

unfoldable pub replay_devices :
    Deps → List (String × UnixMs) → List DataPoint → StringMapMap → Exec Link (List DataPoint)
replay_devices deps latest points [] = pure points
replay_devices deps latest points ((device, items) ∷ rest) = do
  left ← replay_items deps latest points items
  replay_devices deps latest left rest

unfoldable pub flush_rest : List DataPoint → Exec Link Unit
flush_rest points = if ltb 0 (length points) then send_main_frame (replay_batch points) else pure tt

unfoldable pub send_replay_data : Deps → List (String × UnixMs) → Exec Link Unit
unfolding replay_devices replay_items replay_rows flush_full flush_rest
send_replay_data deps latest = do
  left ← replay_devices deps latest [] deps.station_info.devices
  flush_rest left

-- `if len(logs) == 0 { return nil }`.
unfoldable pub send_logs : List RowIdItemStatus → Exec Link Unit
send_logs [] = pure tt
send_logs (l ∷ ls) =
    send_main_frame (item_status_batch (record { replay = true; logs = map log_of (l ∷ ls) }))

unfoldable pub send_replay_status : Deps → ℤ → Exec Link Unit
unfolding send_logs
send_replay_status deps latest_row_id = do
  logs ← reading (deps.get_item_status_log_after latest_row_id)
  send_logs logs
