-- ===== src/Db/History.antt =====
-- tide_server/db/history.go: the tables of item data.
pub mod Saved
pub mod Latest
pub mod Range
pub mod Arrivals
pub mod Made
use Prim.Native.String.{◌++◌ as text_append}
use tidegauge_backend.Prelude.{
  ℕ, String, List, [], ◌∷◌, Bool, true, false, not, Option, none, some, lookup, insert,
  if◌then◌else◌, string_keys, nat_keys, ◌==◌,
}
use tidegauge_backend.Prelude.Int.{ℤ, pos, ltb_ℤ, int_keys}
use tidegauge_backend.Types.{Uuid, UnixMs, Float64, Error, new, sql, DataTime}
use tidegauge_backend.Exec.{Exec, Result, ok, err, pure, raise}
use tidegauge_backend.Db.{
  Database, DataTable, RowKey, row_keys, contains_illegal_character, insert_new,
}

abbrev pub illegal_table : String → Error
illegal_table item_name = new (text_append "Table name contains illegal characters: " item_name)

-- SQLSTATE 42P01, undefined_table.
abbrev pub undefined_table : Error
undefined_table = sql "42P01"

save_in : String → RowKey → Float64 → Option DataTable → Exec Database ℕ
save_in item_name key value none db = (err undefined_table, db)
save_in item_name key value (some rows) db =
    let (rows', n) = insert_new key value rows in
    (ok n, record db { tables = insert item_name rows' db.tables })

unfoldable pub save_data_history : Uuid → String → Float64 → UnixMs → Exec Database ℕ
unfolding save_in contains_illegal_character
save_data_history station_id item_name value at db =
    if contains_illegal_character item_name
    then (err (illegal_table item_name), db)
    else save_in item_name (record { station_id = station_id; place = at }) value
        (lookup item_name db.tables) db

-- `max(…)` of SQL: no value where there is no row.
abbrev pub max_option : Option ℤ → ℤ → Option ℤ
max_option none x = some x
max_option (some y) x = if ltb_ℤ y x then some x else some y

unfoldable pub max_place : Uuid → {V : Type 0} → List (RowKey × V) → Option ℤ
max_place station_id [] = none
max_place station_id ((k, v) ∷ rows) =
    let rest = max_place station_id rows in
    if k.station_id == station_id then max_option rest k.place else rest

-- The body of the loop over the map for one item: an item with no table, or with no row of the
-- station, keeps the value that it had.
latest_of : Database → Uuid → String → UnixMs → UnixMs
unfolding max_place
latest_of db station_id item_name before = elim (lookup item_name db.tables) [
  | none ↦ before
  | some rows ↦ elim (max_place station_id rows) [ none ↦ before | some t ↦ t ]
]

abbrev with_answer :
    String × UnixMs → Result (List (String × UnixMs)) → Result (List (String × UnixMs))
with_answer a (ok latest) = ok (a ∷ latest)
with_answer a (err e) = err e

items_latest_in : Database → Uuid → List (String × UnixMs) → Result (List (String × UnixMs))
unfolding latest_of contains_illegal_character
items_latest_in db station_id [] = ok []
items_latest_in db station_id ((item_name, before) ∷ rest) =
    let others = items_latest_in db station_id rest in
    if contains_illegal_character item_name
    then err (new (text_append "evil table name: " item_name))
    else with_answer (item_name, latest_of db station_id item_name before) others

unfoldable pub get_items_latest :
    Uuid → List (String × UnixMs) → Exec Database (List (String × UnixMs))
unfolding items_latest_in
get_items_latest station_id items db = (items_latest_in db station_id items, db)

-- tide_server/db/item.go: `create table` where there is none.
table_made : String → Option DataTable → Database → Database
table_made name none db = record db { tables = insert name [] db.tables }
table_made name (some rows) db = db

unfoldable pub make_sure_table_exist : String → Exec Database Unit
unfolding table_made contains_illegal_character
make_sure_table_exist name db =
    if contains_illegal_character name
    then (err (illegal_table name), db)
    else (ok tt, table_made name (lookup name db.tables) db)
