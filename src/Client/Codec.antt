-- ===== src/Client/Codec.antt =====
-- tide_client/syncv2/codec.go: frames for what the local broker publishes, and for snapshots.
use tidegauge_backend.Prelude.{
  ℕ, String, [], ◌∷◌, false, ◌||◌, Option, none, some, nat_eq, if◌then◌else◌, ◌==◌, string_keys,
}
use tidegauge_backend.Types.{ItemNameDataTime, RowIdItemStatus, RpiStatusTime, Error}
use tidegauge_backend.Wire.{
  StationMessage, data_batch, item_status_batch, rpi_status, snapshot_response, DataKind,
  normal_kind, gpio, ItemStatusLog, Bytes,
}
use tidegauge_backend.Exec.{Result, ok, err}

-- common/const.go: `MsgType`.
abbrev pub msg_data : ℕ
msg_data = 0

abbrev pub msg_gpio_data : ℕ
msg_gpio_data = 1

abbrev pub msg_rpi_status : ℕ
msg_rpi_status = 2

abbrev pub msg_item_status : ℕ
msg_item_status = 3

-- The `any` of a message: the types that the code asserts, or another.
pub data Body : Type 0 where
  item_data : ItemNameDataTime → Body
  row_status : RowIdItemStatus → Body
  rpi_data : RpiStatusTime → Body
  foreign : Body

pub record SendMsg : Type 0 where
  pub msg_type : ℕ
  pub body : Body

data_frame : DataKind → Body → Option StationMessage
data_frame kind (item_data b) = some (
    data_batch (record {
      replay = false;
      points =
          (record {
            item_name = b.item_name;
            value = b.data_time.value;
            unix_ms = b.data_time.millisecond;
            kind = kind;
          })
          ∷ [];
    }))
data_frame kind _ = none

unfoldable pub log_of : RowIdItemStatus → ItemStatusLog
log_of b = record {
  row_id = b.row_id;
  item_name = b.item_status.item_name;
  status = b.item_status.change.status;
  changed_at_unix_ms = b.item_status.change.changed_at;
}

status_frame : Body → Option StationMessage
unfolding log_of
status_frame (row_status b) =
    some (item_status_batch (record { replay = false; logs = log_of b ∷ [] }))
status_frame _ = none

rpi_frame : Body → Option StationMessage
rpi_frame (rpi_data b) =
    some (rpi_status (record { cpu_temp = b.cpu_temp; unix_ms = b.millisecond }))
rpi_frame _ = none

-- `none` is `nil, false`.
unfoldable pub build_realtime_frame : SendMsg → Option StationMessage
unfolding data_frame status_frame rpi_frame
build_realtime_frame msg =
    if nat_eq msg.msg_type msg_data || nat_eq msg.msg_type msg_gpio_data
    then data_frame (if nat_eq msg.msg_type msg_gpio_data then gpio else normal_kind) msg.body
    else if nat_eq msg.msg_type msg_item_status
    then status_frame msg.body
    else if nat_eq msg.msg_type msg_rpi_status
    then rpi_frame msg.body
    else none

abbrev snapshot_error : String → StationMessage
snapshot_error text = snapshot_response (some (record { image = []; error = text }))

-- `err.Error()`.
fetched : (Error → String) → Result Bytes → StationMessage
fetched error_text (ok bs) = snapshot_response (some (record { image = bs; error = "" }))
fetched error_text (err e) = snapshot_error (error_text e)

with_camera :
    (Error → String)
    → (String → String → String → Result Bytes)
    → Option (String × String × String)
    → StationMessage
with_camera error_text snapshot none = snapshot_error "camera not found"
with_camera error_text snapshot (some (url, username, password)) =
    fetched error_text (snapshot url username password)

with_deps :
    (Error → String)
    → String
    → Option (String → Option (String × String × String))
    → Option (String → String → String → Result Bytes)
    → StationMessage
with_deps error_text name (some get_camera) (some snapshot) =
    with_camera error_text snapshot (get_camera name)
with_deps error_text name _ _ = snapshot_error "snapshot dependencies are missing"

unfoldable pub build_snapshot_response_frame :
    (Error → String)
    → Option String
    → Option (String → Option (String × String × String))
    → Option (String → String → String → Result Bytes)
    → StationMessage
unfolding fetched with_camera with_deps
build_snapshot_response_frame error_text none get_camera snapshot =
    snapshot_error "camera name is required"
build_snapshot_response_frame error_text (some name) get_camera snapshot =
    if name == ""
    then snapshot_error "camera name is required"
    else with_deps error_text name get_camera snapshot
