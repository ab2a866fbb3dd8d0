-- ===== src/Gauge.antt =====
-- tide_client/db/common.go, data.go and log.go: the local database of a station (SQLite). A statement
-- is one step; which statements will fail is part of the state.
pub mod Receive
pub mod Disk
pub mod Recorded
pub mod Restart
use tidegauge_backend.Prelude.{
  ℕ, ◌+◌, String, List, [], ◌∷◌, ◌++◌, Bool, true, false, not, ◌&&◌, ◌||◌, Option, none, some,
  length, lookup, insert, string_keys, ◌==◌, if◌then◌else◌,
}
use tidegauge_backend.Prelude.Int.{ℤ, pos, ltb_ℤ, int_keys}
use tidegauge_backend.Types.{
  Error, new, UnixMs, Float64, Status, DataTime, ItemStatus, RowIdItemStatus,
}
use tidegauge_backend.Exec.{Exec, ok, err}

-- The item tables and `item_status_log`, each in the order of insertion, and the faults of the
-- statements to come (`none` works).
pub record LocalDb : Type 0 where
  pub tables : List (String × List DataTime)
  pub status_log : List RowIdItemStatus
  pub faults : List (Option Error)

-- A statement, which does nothing where it fails.
unfoldable pub statement_with : {A : Type 0} → List (Option Error) → Exec LocalDb A → Exec LocalDb A
statement_with [] run db = run db
statement_with (none ∷ rest) run db = run (record db { faults = rest })
statement_with (some e ∷ rest) run db = (err e, record db { faults = rest })

unfoldable pub statement : {A : Type 0} → Exec LocalDb A → Exec LocalDb A
unfolding statement_with
statement run db = statement_with db.faults run db

table_made : String → Option (List DataTime) → LocalDb → LocalDb
table_made name (some rows) db = db
table_made name none db = record db { tables = insert name [] db.tables }

unfoldable pub make_sure_table_exist : String → Exec LocalDb Unit
unfolding table_made statement
make_sure_table_exist name db =
    statement (λ d. (ok tt, table_made name (lookup name d.tables) d)) db

unfoldable pub insert_data : String → DataTime → Option (List DataTime) → Exec LocalDb Unit
insert_data name row none db = (err (new "no such table"), db)
insert_data name row (some rows) db =
    (ok tt, record db { tables = insert name (rows ++ row ∷ []) db.tables })

unfoldable pub save_data : String → Float64 → UnixMs → Exec LocalDb Unit
unfolding insert_data statement
save_data name value msec db =
    statement
      (λ d.
        insert_data name (record { value = value; millisecond = msec }) (lookup name d.tables) d)
      db

-- `order by timestamp`: a row goes before the first that is later.
unfoldable pub put_by_time : DataTime → List DataTime → List DataTime
put_by_time d [] = d ∷ []
put_by_time d (x ∷ xs) =
    if ltb_ℤ d.millisecond x.millisecond then d ∷ x ∷ xs else x ∷ put_by_time d xs

sort_by_time : List DataTime → List DataTime → List DataTime
unfolding put_by_time
sort_by_time sorted [] = sorted
sort_by_time sorted (d ∷ rest) = sort_by_time (put_by_time d sorted) rest

-- The condition on the timestamp: no bound where the end is 0.
abbrev pub within : UnixMs → UnixMs → DataTime → Bool
within start stop d = ltb_ℤ start d.millisecond && (stop == pos 0 || ltb_ℤ d.millisecond stop)

unfoldable pub select_within : UnixMs → UnixMs → List DataTime → List DataTime
select_within start stop [] = []
select_within start stop (d ∷ rest) =
    let more = select_within start stop rest in if within start stop d then d ∷ more else more

select_history : UnixMs → UnixMs → Option (List DataTime) → Exec LocalDb (List DataTime)
unfolding select_within sort_by_time
select_history start stop none db = (err (new "no such table"), db)
select_history start stop (some rows) db =
    (ok (sort_by_time [] (select_within start stop rows)), db)

unfoldable pub get_data_history : String → UnixMs → UnixMs → Exec LocalDb (List DataTime)
unfolding select_history statement
get_data_history name start stop db =
    statement (λ d. select_history start stop (lookup name d.tables) d) db

-- SQLite numbers the rows of a table from which none is deleted 1, 2, ….
unfoldable pub new_row : String → Status → UnixMs → List RowIdItemStatus → RowIdItemStatus
new_row name status changed_at log = record {
  row_id = pos (length log + 1);
  item_status = record {
    item_name = name;
    change = record { status = status; changed_at = changed_at };
  };
}

unfoldable pub insert_log : RowIdItemStatus → Exec LocalDb ℤ
insert_log row db = (ok row.row_id, record db { status_log = db.status_log ++ row ∷ [] })

unfoldable pub save_item_status_log : String → Status → UnixMs → Exec LocalDb ℤ
unfolding statement insert_log new_row
save_item_status_log name status changed_at db =
    statement (insert_log (new_row name status changed_at db.status_log)) db

-- A row of the item stands in the log.
unfoldable pub logs_item : String → List RowIdItemStatus → Bool
logs_item name [] = false
logs_item name (row ∷ rest) = row.item_status.item_name == name || logs_item name rest

-- The rows with the greatest row number of their item.
unfoldable pub last_rows : List RowIdItemStatus → List ItemStatus
unfolding logs_item
last_rows [] = []
last_rows (row ∷ rest) =
    let more = last_rows rest in
    if logs_item row.item_status.item_name rest then more else row.item_status ∷ more

unfoldable pub get_items_latest_status : Exec LocalDb (List ItemStatus)
unfolding statement
get_items_latest_status db = statement (λ d. (ok (last_rows d.status_log), d)) db

unfoldable pub rows_after : ℤ → List RowIdItemStatus → List RowIdItemStatus
rows_after after [] = []
rows_after after (row ∷ rest) =
    let more = rows_after after rest in if ltb_ℤ after row.row_id then row ∷ more else more

unfoldable pub get_item_status_log_after : ℤ → Exec LocalDb (List RowIdItemStatus)
unfolding statement
get_item_status_log_after after db = statement (λ d. (ok (rows_after after d.status_log), d)) db
