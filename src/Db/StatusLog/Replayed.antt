-- ===== src/Db/StatusLog/Replayed.antt =====
-- A status log that arrives again.
use tidegauge_backend.Prelude.{
  ℕ, String, List, [], ◌∷◌, Bool, true, false, Option, none, some, ap, lookup, insert, Bool-cases,
  ◌==◌, nat_keys, ◌≡◌, refl, inl, inr, Option-cases, lookup-insert, ==_refl,
}
use tidegauge_backend.Prelude.Int.{ℤ}
use tidegauge_backend.Types.{Uuid, UnixMs, Status, ItemStatus}
use tidegauge_backend.Exec.{ok, pure, ◌>>=◌}
use tidegauge_backend.Db.{Database, RowKey, row_keys}
use tidegauge_backend.Db.StatusLog.{
  save_item_status_log, update_item_status, update_station_status, update_and_save_status_log,
  log_row,
}

-- What the other sessions call: either kind of log, and the status of an item or a station.
pub data LogCall : Type 0 where
  saves_log : Uuid → ℤ → String → Status → UnixMs → LogCall
  updates_and_saves_log : Uuid → ℤ → String → Status → UnixMs → LogCall
  updates_item : Uuid → String → Status → UnixMs → LogCall
  updates_station : Uuid → Status → UnixMs → LogCall

abbrev pub run_call : LogCall → Database → Database
run_call (saves_log id row name st t) db = (save_item_status_log id row name st t db).1
run_call (updates_and_saves_log id row name st t) db =
    (update_and_save_status_log id row name st t db).1
run_call (updates_item id name st t) db = (update_item_status id name st t db).1
run_call (updates_station id st t) db = (update_station_status id st t db).1

abbrev pub run_log_calls : List LogCall → Database → Database
run_log_calls [] db = db
run_log_calls (c ∷ cs) db = run_log_calls cs (run_call c db)

abbrev is_logged : Option ItemStatus → Bool
is_logged none = false
is_logged (some row) = true

module _ (station_id : Uuid) (row_id : ℤ) (item_name : String) (status : Status) (at : UnixMs) where
  abbrev key : RowKey
  key = record { station_id = station_id; place = row_id }

  -- Where the row is there already, nothing happens.
  known_row :
      (db : Database) (o : ItemStatus)
      → lookup key db.status_log ≡ some o
      → update_and_save_status_log station_id row_id item_name status at db ≡ (ok 0, db)
  unfolding update_and_save_status_log save_item_status_log ◌>>=◌ pure
  known_row db o h = rw h

  saved_row :
      (row : ItemStatus) (rows : List (RowKey × ItemStatus))
      → lookup key (insert key row rows) ≡ some row
  saved_row row rows = rw (lookup-insert key key row rows, ==_refl key)

  -- Where the save succeeds, the log has a row of this number.
  saved-logged :
      (n : ℕ) (db : Database)
      → (update_and_save_status_log station_id row_id item_name status at db).0 ≡ ok n
      → is_logged (
          lookup key
            (update_and_save_status_log station_id row_id item_name status at db).1.status_log)
        ≡ true
  unfolding update_and_save_status_log save_item_status_log update_item_status ◌>>=◌ pure
  saved-logged n db e = elim (Option-cases (lookup key db.status_log)) [
    | inr (o, h) ↦ rw (h, h) refl
    | inl h ↦ elim (Option-cases (lookup station_id db.stations)) [
      | inl g ↦ absurd (cc (rw (h, g) at e))
      | inr (st, g) ↦
          rw (h, g) (ap is_logged (saved_row (log_row item_name status at) db.status_log))
    ]
  ]

  -- A row of the log stays, whatever is saved after it.
  insert-logged :
      (k : RowKey) (row : ItemStatus) (rows : List (RowKey × ItemStatus))
      → is_logged (lookup key rows) ≡ true
      → is_logged (lookup key (insert k row rows)) ≡ true
  insert-logged k row rows h = elim (Bool-cases (k == key)) [
    | inl same ↦ rw (lookup-insert k key row rows, same) refl
    | inr other ↦ rw (lookup-insert k key row rows, other) h
  ]

  saves-logged :
      (id : Uuid) (row : ℤ) (name : String) (st : Status) (t : UnixMs) (db : Database)
      → is_logged (lookup key db.status_log) ≡ true
      → is_logged (lookup key (save_item_status_log id row name st t db).1.status_log) ≡ true
  unfolding save_item_status_log
  saves-logged id row name st t db h =
      let k : RowKey = record { station_id = id; place = row } in
      elim (Option-cases (lookup k db.status_log)) [
        | inr (o, f) ↦ rw f h
        | inl f ↦ elim (Option-cases (lookup id db.stations)) [
          | inl g ↦ rw (f, g) h
          | inr (r, g) ↦ rw (f, g) (insert-logged k (log_row name st t) db.status_log h)
        ]
      ]

  updates_and_saves-logged :
      (id : Uuid) (row : ℤ) (name : String) (st : Status) (t : UnixMs) (db : Database)
      → is_logged (lookup key db.status_log) ≡ true
      → is_logged (lookup key (update_and_save_status_log id row name st t db).1.status_log) ≡ true
  unfolding update_and_save_status_log save_item_status_log update_item_status ◌>>=◌ pure
  updates_and_saves-logged id row name st t db h =
      let k : RowKey = record { station_id = id; place = row } in
      elim (Option-cases (lookup k db.status_log)) [
        | inr (o, f) ↦ rw f h
        | inl f ↦ elim (Option-cases (lookup id db.stations)) [
          | inl g ↦ rw (f, g) h
          | inr (r, g) ↦ rw (f, g) (insert-logged k (log_row name st t) db.status_log h)
        ]
      ]

  calls-logged :
      (cs : List LogCall) (db : Database)
      → is_logged (lookup key db.status_log) ≡ true
      → is_logged (lookup key (run_log_calls cs db).status_log) ≡ true
  unfolding update_item_status update_station_status
  calls-logged [] db h = h
  calls-logged (saves_log id row name st t ∷ cs) db h =
      calls-logged cs _ (saves-logged id row name st t db h)
  calls-logged (updates_and_saves_log id row name st t ∷ cs) db h =
      calls-logged cs _ (updates_and_saves-logged id row name st t db h)
  calls-logged (updates_item id name st t ∷ cs) db h = calls-logged cs _ h
  calls-logged (updates_station id st t ∷ cs) db h = calls-logged cs _ h

  -- A status log that was saved with success, and that arrives again after any number of saves and
  -- updates by others, reports no new row and changes nothing, so that the status that an item was
  -- given meanwhile is not overwritten by the older one.
  pub update_and_save_status_log-again :
      (n : ℕ) (cs : List LogCall) (db : Database)
      → (update_and_save_status_log station_id row_id item_name status at db).0 ≡ ok n
      → let later =
          run_log_calls cs
            (update_and_save_status_log station_id row_id item_name status at db).1 in
        update_and_save_status_log station_id row_id item_name status at later ≡ (ok 0, later)
  update_and_save_status_log-again n cs db e =
      let later : Database =
        run_log_calls cs (update_and_save_status_log station_id row_id item_name status at db).1 in
      let h : is_logged (lookup key later.status_log) ≡ true =
        calls-logged cs _ (saved-logged n db e) in
      elim (Option-cases (lookup key later.status_log)) [
        | inl f ↦ absurd (cc (rw f at h))
        | inr (o, f) ↦ known_row later o f
      ]
