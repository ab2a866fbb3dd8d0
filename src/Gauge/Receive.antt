-- ===== src/Gauge/Receive.antt =====
-- tide_client/controller/common.go: `receiveData`, which stores and publishes what the devices measure.
-- A batch is handled with the ingest lock held.
use tidegauge_backend.Prelude.{
  ℕ, String, List, [], ◌∷◌, ◌++◌, Option, none, some, lookup, insert, string_keys, nat_keys, ◌==◌,
  if◌then◌else◌,
}
use tidegauge_backend.Prelude.Int.{ℤ, pos, int_keys}
use tidegauge_backend.Types.{
  Float64, UnixMs, Status, StatusChange, RowIdItemStatus, ItemStatus, normal, abnormal,
}
use tidegauge_backend.Exec.{Exec, Result, ok, err, pure, modify, ◌>>=◌, ◌>>◌, attempt}
use tidegauge_backend.Client.Codec.{SendMsg, item_data, row_status, msg_data, msg_item_status}
use tidegauge_backend.Gauge.{LocalDb, save_data, save_item_status_log, get_items_latest_status}

-- tide_client/device/common.go: `itemData`.
pub record ItemData : Type 0 where
  pub at : UnixMs
  pub typ : ℕ
  pub item_name : String
  pub value : Option Float64

-- The local database, `itemsStatus`, and what was published to the local broker.
pub record Ingest : Type 0 where
  pub db : LocalDb
  pub items_status : List (String × StatusChange)
  pub published : List SendMsg

unfoldable pub on_db : {A : Type 0} → Exec LocalDb A → Exec Ingest A
on_db m s = let (r, d) = m s.db in (r, record s { db = d })

unfoldable pub publish : SendMsg → Exec Ingest Unit
publish msg s = (ok tt, record s { published = s.published ++ msg ∷ [] })

-- `itemsStatus[name].Status`: the zero of its type where there is none.
abbrev pub status_in : Option StatusChange → Status
status_in none = ""
status_in (some c) = c.status

abbrev pub status_row : ℤ → String → StatusChange → RowIdItemStatus
status_row row_id name change = record {
  row_id = row_id;
  item_status = record { item_name = name; change = change };
}

abbrev pub status_msg : RowIdItemStatus → SendMsg
status_msg row = record { msg_type = msg_item_status; body = row_status row }

-- A row that could not be saved is logged and not published.
unfoldable pub announce : String → StatusChange → Result ℤ → Exec Ingest Unit
announce name change (err e) = pure tt
announce name change (ok row_id) = publish (status_msg (status_row row_id name change))

unfoldable pub enter_status : String → StatusChange → Ingest → Ingest
enter_status name change s = record s { items_status = insert name change s.items_status }

-- The two branches for a value that is missing or there, which differ in the status only.
unfoldable pub change_status : String → Status → UnixMs → Exec Ingest Unit
unfolding on_db announce enter_status
change_status name status at s =
    let change : StatusChange = record { status = status; changed_at = at } in
    if status_in (lookup name s.items_status) == status
    then (ok tt, s)
    else (do
      modify (enter_status name change)
      attempt (on_db (save_item_status_log name status at)) (announce name change))
        s

abbrev pub status_of : Option Float64 → Status
status_of none = abnormal
status_of (some v) = normal

abbrev pub data_msg : ℕ → String → Float64 → UnixMs → SendMsg
data_msg typ name v at = record {
  msg_type = typ;
  body =
      item_data (record { item_name = name; data_time = record { value = v; millisecond = at } });
}

-- A value that could not be saved is published all the same.
unfoldable pub take_value : ℕ → String → UnixMs → Option Float64 → Exec Ingest Unit
unfolding on_db publish
take_value typ name at none = pure tt
take_value typ name at (some v) =
    attempt (on_db (save_data name v at)) (λ r. publish (data_msg typ name v at))

-- The time of a value; `now` is what the clock shows.
abbrev pub time_of : UnixMs → ItemData → UnixMs
time_of now d = if d.at == pos 0 then now else d.at

unfoldable pub take_datum : ItemData → UnixMs → Exec Ingest Unit
take_datum d now = do
  if d.typ == msg_data
      then change_status d.item_name (status_of d.value) (time_of now d)
      else pure tt
  take_value d.typ d.item_name (time_of now d) d.value

-- The batches that come, one after another; each value with what the clock shows.
unfoldable pub receive_data : List (ItemData × UnixMs) → Exec Ingest Unit
receive_data [] = pure tt
receive_data ((d, now) ∷ rest) = do take_datum d now; receive_data rest

unfoldable pub put_statuses :
    List ItemStatus → List (String × StatusChange) → List (String × StatusChange)
put_statuses [] m = m
put_statuses (s ∷ rest) m = put_statuses rest (insert s.item_name s.change m)

-- The end of `initDevices`: what is loaded into an empty `itemsStatus` when the program starts.
unfoldable pub load_statuses : Exec LocalDb (List (String × StatusChange))
load_statuses = do ds ← get_items_latest_status; pure (put_statuses ds [])
