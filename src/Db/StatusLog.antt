-- ===== src/Db/StatusLog.antt =====
-- tide_server/db/status.go: station and item status, and the log of item status.
pub mod Replayed
use tidegauge_backend.Prelude.{
  ℕ, String, List, [], ◌∷◌, Bool, not, ◌||◌, Option, none, some, lookup, insert, if◌then◌else◌,
  string_keys, nat_keys, ◌==◌, ltb,
}
use tidegauge_backend.Prelude.Int.{ℤ, pos, ltb_ℤ, int_keys}
use tidegauge_backend.Types.{
  Uuid, UnixMs, Status, Error, sql, station_item_keys, ItemStatus, RowIdItemStatus, RpiStatusTime,
}
use tidegauge_backend.Exec.{Exec, ok, err, ◌>>=◌, pure}
use tidegauge_backend.Db.{Database, StationRow, ItemRow, RowKey, row_keys, update_where}
use tidegauge_backend.Db.History.{max_place}

-- `status != $ or status_changed_at != $`.
abbrev pub differs : Status → UnixMs → Status → UnixMs → Bool
differs status at status' at' = not (status' == status) || not (at' == at)

unfoldable pub update_station_status : Uuid → Status → UnixMs → Exec Database ℕ
update_station_status id status at db =
    let (rows, n) =
      update_where id (λ (r : StationRow). differs status at r.status r.status_changed_at)
        (λ r. record r { status = status; status_changed_at = at }) db.stations in
    (ok n, record db { stations = rows })

unfoldable pub update_item_status : Uuid → String → Status → UnixMs → Exec Database ℕ
update_item_status station_id item_name status at db =
    let (rows, n) =
      update_where (record { station_id = station_id; item_name = item_name })
        (λ (r : ItemRow). differs status at r.status r.status_changed_at)
        (λ r. record r { status = status; status_changed_at = at }) db.items in
    (ok n, record db { items = rows })

abbrev or_zero : Option ℤ → ℤ
or_zero none = pos 0
or_zero (some x) = x

-- `NullInt64` of no row is 0.
unfoldable pub get_latest_status_log_row_id : Uuid → Exec Database ℤ
unfolding max_place
get_latest_status_log_row_id station_id db = (ok (or_zero (max_place station_id db.status_log)), db)

-- `foreign key station_id references stations`.
abbrev pub foreign_key_violation : Error
foreign_key_violation = sql "23503"

abbrev pub log_row : String → Status → UnixMs → ItemStatus
log_row item_name status at = record {
  item_name = item_name;
  change = record { status = status; changed_at = at };
}

abbrev insert_log : RowKey → ItemStatus → Option ItemStatus → Option StationRow → Exec Database ℕ
insert_log key row (some old) station db = (ok 0, db)
insert_log key row none none db = (err foreign_key_violation, db)
insert_log key row none (some station) db =
    (ok 1, record db { status_log = insert key row db.status_log })

unfoldable pub save_item_status_log : Uuid → ℤ → String → Status → UnixMs → Exec Database ℕ
save_item_status_log station_id row_id item_name status at db =
    let key : RowKey = record { station_id = station_id; place = row_id } in
    insert_log key (log_row item_name status at) (lookup key db.status_log)
      (lookup station_id db.stations) db

-- The insert and, where it inserted, the update, in one transaction.
unfoldable pub update_and_save_status_log : Uuid → ℤ → String → Status → UnixMs → Exec Database ℕ
unfolding save_item_status_log update_item_status ◌>>=◌
update_and_save_status_log station_id row_id item_name status at = do
  n ← save_item_status_log station_id row_id item_name status at
  if ltb 0 n then (update_item_status station_id item_name status at >>= λ m. pure n) else pure n

select_after : Uuid → ℤ → List (RowKey × ItemStatus) → List RowIdItemStatus
select_after station_id after [] = []
select_after station_id after ((k, row) ∷ rows) =
    let rest = select_after station_id after rows in
    if k.station_id == station_id
    then if ltb_ℤ after k.place
      then (record { row_id = k.place; item_status = row }) ∷ rest
      else rest
    else rest

insert_by_row : RowIdItemStatus → List RowIdItemStatus → List RowIdItemStatus
insert_by_row x [] = x ∷ []
insert_by_row x (y ∷ ys) =
    let rest = insert_by_row x ys in if ltb_ℤ y.row_id x.row_id then y ∷ rest else x ∷ y ∷ ys

order_by_row : List RowIdItemStatus → List RowIdItemStatus
unfolding insert_by_row
order_by_row [] = []
order_by_row (x ∷ xs) = insert_by_row x (order_by_row xs)

-- `where station_id = $1 and row_id > $2 order by row_id`.
unfoldable pub get_item_status_logs : Uuid → ℤ → Exec Database (List RowIdItemStatus)
unfolding order_by_row select_after
get_item_status_logs station_id after db =
    (ok (order_by_row (select_after station_id after db.status_log)), db)

abbrev insert_rpi : Uuid → RpiStatusTime → Option StationRow → Exec Database Unit
insert_rpi station_id row none db = (err foreign_key_violation, db)
insert_rpi station_id row (some station) db =
    (ok tt, record db { rpi_log = (station_id, row) ∷ db.rpi_log })

-- tide_server/db/rpi.go: the table has no key, so each call adds a row.
unfoldable pub save_rpi_status : Uuid → RpiStatusTime → Exec Database Unit
save_rpi_status station_id row db = insert_rpi station_id row (lookup station_id db.stations) db
