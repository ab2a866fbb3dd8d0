-- ===== src/Db/History/Saved.antt =====
-- What SaveDataHistory of tide_server/db/history.go leaves in the tables.
use tidegauge_backend.Prelude.{
  ℕ, String, Bool, true, false, Option, none, some, lookup, if◌then◌else◌, string_keys, nat_keys,
  ◌==◌, ◌≡◌, refl, ◌⊎◌, inl, inr, arith, lookup-insert, Bool-cases, ◌&&◌,
}
use tidegauge_backend.Prelude.Int.{int_keys}
use tidegauge_backend.Types.{Uuid, UnixMs, Float64, Error}
use tidegauge_backend.Exec.{ok, err}
use tidegauge_backend.Db.{
  Database, DataTable, RowKey, row_keys, contains_illegal_character, insert_new,
}
use tidegauge_backend.Db.History.{save_data_history, save_in}

abbrev pub in_table : RowKey → Option DataTable → Option Float64
in_table key none = none
in_table key (some rows) = lookup key rows

-- The value that is stored for a station, an item and a time.
unfoldable pub stored : Database → Uuid → String → UnixMs → Option Float64
stored db station_id item_name at =
    in_table (record { station_id = station_id; place = at }) (lookup item_name db.tables)

-- A value that is there already is kept.
abbrev pub first_of : Option Float64 → Float64 → Float64
first_of none v = v
first_of (some w) v = w

-- Whether a call concerns this place.
abbrev pub same_place : String → RowKey → String → RowKey → Bool
same_place item_name key item_name' key' = item_name == item_name' && key == key'

insert_new-lookup :
    (key key' : RowKey) (v : Float64) (rows : DataTable) (o : Option Float64)
    → lookup key rows ≡ o
    → lookup key' (insert_new key v rows).0
      ≡ (if key == key' then some (first_of o v) else lookup key' rows)
insert_new-lookup key key' v rows none h = rw h (lookup-insert key key' v rows)
insert_new-lookup key key' v rows (some w) h = rw h (kept (Bool-cases (key == key')))
  where
    kept :
        ((key == key') ≡ true) ⊎ ((key == key') ≡ false)
        → lookup key' rows ≡ (if key == key' then some w else lookup key' rows)
    kept (inl same) = rw same (rw (← (row_keys.beq_iff key key').0 same) h)
    kept (inr other) = rw other

-- The number of rows that a save inserts.
abbrev pub missing : Option Float64 → ℕ
missing none = 1
missing (some w) = 0

abbrev pub key_of : Uuid → UnixMs → RowKey
key_of station_id at = record { station_id = station_id; place = at }

insert_new-count :
    (key : RowKey) (v : Float64) (rows : DataTable)
    → (insert_new key v rows).1 ≡ missing (lookup key rows)
insert_new-count key v rows = ground arith

save_in-stored :
    (item item' : String) (key key' : RowKey) (v : Float64) (o : Option DataTable) (db : Database)
    (n : ℕ)
    → lookup item db.tables ≡ o
    → (save_in item key v o db).0 ≡ ok n
    → (in_table key' (lookup item' (save_in item key v o db).1.tables) ≡ (
        if same_place item key item' key'
        then some (first_of (in_table key o) v)
        else in_table key' (lookup item' db.tables)))
      × (n ≡ missing (in_table key o))
unfolding save_in
save_in-stored item item' key key' v none db n h e = cc
save_in-stored item item' key key' v (some rows) db n h e =
    (rw lookup-insert (at_item (Bool-cases (item == item'))), cc (e, insert_new-count key v rows))
  where
    at_item :
        ((item == item') ≡ true) ⊎ ((item == item') ≡ false)
        → in_table key'
            (if item == item' then some (insert_new key v rows).0 else lookup item' db.tables)
          ≡ (if same_place item key item' key'
              then some (first_of (lookup key rows) v)
              else in_table key' (lookup item' db.tables))
    at_item (inl same) = rw same (
        rw (← (string_keys.beq_iff item item').0 same)
          (rw h (insert_new-lookup key key' v rows (lookup key rows) refl)))
    at_item (inr other) = rw other

module _ (station_id : Uuid) (item_name : String) (v : Float64) (at : UnixMs) (db : Database) where
  -- A save that succeeds stores the value at its place if nothing was there, reports whether it did,
  -- and changes no other place.
  pub save_data_history-stored :
      (n : ℕ)
      → (save_data_history station_id item_name v at db).0 ≡ ok n
      → ((station' : Uuid) (item' : String) (at' : UnixMs)
          → stored (save_data_history station_id item_name v at db).1 station' item' at' ≡ (
              if same_place item_name (key_of station_id at) item' (key_of station' at')
              then some (first_of (stored db station_id item_name at) v)
              else stored db station' item' at'))
        × (n ≡ missing (stored db station_id item_name at))
  unfolding save_data_history stored
  save_data_history-stored n e = elim (Bool-cases (contains_illegal_character item_name)) [
    | inl bad ↦ absurd (cc (rw (bad, save_data_history) at e))
    | inr good ↦
        let o = lookup item_name db.tables in
        rw good (
          λ s' i' t'.
              (save_in-stored item_name i' (key_of station_id at) (key_of s' t') v o db n refl
                (rw good at e)).0,
          (save_in-stored item_name item_name (key_of station_id at) (key_of station_id at) v o db n
              refl (rw good at e)).1,
        )
  ]

  -- A save that fails changes nothing.
  pub save_data_history_failed :
      (x : Error)
      → (save_data_history station_id item_name v at db).0 ≡ err x
      → (save_data_history station_id item_name v at db).1 ≡ db
  unfolding save_data_history
  save_data_history_failed x e = ground arith
