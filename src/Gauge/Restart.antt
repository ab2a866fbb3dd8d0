-- ===== src/Gauge/Restart.antt =====
-- The statuses that `receiveData` of tide_client/controller/common.go keeps in memory, and those that
-- `initDevices` loads from the database when the program starts again.
use tidegauge_backend.Prelude.{
  ℕ, String, List, [], ◌∷◌, ◌++◌, Bool, true, false, Option, none, some, ◌≡◌, refl, ◌∙◌, sym, ap,
  inl, inr, ◌==◌, string_keys, nat_keys, lookup, insert, lookup-insert, Bool-cases, if◌then◌else◌,
}
use tidegauge_backend.Types.{Float64, UnixMs, Status, StatusChange, RowIdItemStatus, DataTime}
use tidegauge_backend.Exec.{Exec, ok, pure, modify, ◌>>=◌, attempt}
use tidegauge_backend.Client.Codec.{msg_data}
use tidegauge_backend.Gauge.{
  LocalDb, statement, insert_log, new_row, save_item_status_log, save_data, insert_data, logs_item,
  last_rows, get_items_latest_status,
}
use tidegauge_backend.Gauge.Receive.{
  ItemData, Ingest, on_db, publish, status_in, status_of, time_of, announce, enter_status,
  change_status, take_value, take_datum, receive_data, put_statuses, load_statuses,
}

abbrev pub or_else : Option StatusChange → Option StatusChange → Option StatusChange
or_else (some c) o = some c
or_else none o = o

-- The status of the item in the last of its rows.
abbrev pub latest : String → List RowIdItemStatus → Option StatusChange
latest name [] = none
latest name (row ∷ rest) =
    or_else (latest name rest)
      (if row.item_status.item_name == name then some row.item_status.change else none)

latest-append :
    (name : String) (row : RowIdItemStatus) (log : List RowIdItemStatus)
    → latest name (log ++ row ∷ [])
      ≡ (if row.item_status.item_name == name then some row.item_status.change else latest name log)
latest-append name row [] = refl
latest-append name row (x ∷ log) = elim (Bool-cases (row.item_status.item_name == name)) [
  | inl same ↦ rw (latest-append name row log) (rw same refl)
  | inr other ↦ rw (latest-append name row log) (rw other refl)
]

-- What is in memory is the latest of the log, and the database works.
pub record IsInStep (s : Ingest) : Type 0 where
  pub works : s.db.faults ≡ []
  pub agrees : (name : String) → lookup name s.items_status ≡ latest name s.db.status_log

-- The action ends without an error and keeps memory and log in step.
abbrev Steps : Exec Ingest Unit → Type 0
Steps m = (s : Ingest) → IsInStep s → ((m s).0 ≡ ok tt) × IsInStep (m s).1

bind-Steps : (m n : Exec Ingest Unit) → Steps m → Steps n → Steps (m >>= (λ _. n))
unfolding ◌>>=◌
bind-Steps m n hm hn s h = rw ((hm s h).0) (hn (m s).1 (hm s h).1)

if-Steps : (b : Bool) (m n : Exec Ingest Unit) → Steps m → Steps n → Steps (if b then m else n)
if-Steps true m n hm hn = hm
if-Steps false m n hm hn = hn

pure-Steps : Steps (pure tt)
unfolding pure
pure-Steps s h = (refl, h)

-- A database without faults takes the row.
save_log_works :
    (name : String) (status : Status) (at : UnixMs) (db : LocalDb)
    → db.faults ≡ []
    → save_item_status_log name status at db ≡ (
      ok (new_row name status at db.status_log).row_id,
      record db {
        status_log = db.status_log ++ new_row name status at db.status_log ∷ [];
        faults = [];
      },
    )
unfolding save_item_status_log statement insert_log new_row
save_log_works name status at db calm = rw calm refl

change_status-Steps :
    (name : String) (status : Status) (at : UnixMs) → Steps (change_status name status at)
unfolding change_status on_db announce enter_status publish attempt modify ◌>>=◌ pure new_row
change_status-Steps name status at s h =
    elim (Bool-cases (status_in (lookup name s.items_status) == status)) [
      | inl same ↦ rw same (refl, h)
      | inr other ↦
          rw (other, save_log_works name status at s.db h.works)
            (
              refl,
              record {
                works = refl;
                agrees = λ j.
                    lookup-insert name j (record { status = status; changed_at = at })
                      s.items_status
                    ∙ rw (h.agrees j) (
                        sym (
                          latest-append j (new_row name status at s.db.status_log)
                            s.db.status_log));
              },
            )
    ]

save_data-calm :
    (name : String) (v : Float64) (at : UnixMs) (db : LocalDb)
    → db.faults ≡ []
    → ((save_data name v at db).1.status_log ≡ db.status_log)
      × ((save_data name v at db).1.faults ≡ [])
unfolding save_data statement
save_data-calm name v at db calm = rw calm (inserted (lookup name db.tables))
  where
    inserted :
        (o : Option (List DataTime))
        → ((insert_data name
              (record { value = v; millisecond = at })
              o
              (record db { faults = [] })).1.status_log
            ≡ db.status_log)
          × ((insert_data name
                (record { value = v; millisecond = at })
                o
                (record db { faults = [] })).1.faults
              ≡ [])
    inserted none = unfold insert_data in (refl, refl)
    inserted (some rows) = unfold insert_data in (refl, refl)

take_value-Steps :
    (typ : ℕ) (name : String) (at : UnixMs) (value : Option Float64)
    → Steps (take_value typ name at value)
unfolding take_value on_db publish attempt pure
take_value-Steps typ name at none s h = (refl, h)
take_value-Steps typ name at (some v) s h =
    let calm = save_data-calm name v at s.db h.works in
    (refl, record { works = calm.1; agrees = λ j. h.agrees j ∙ ap (latest j) (sym calm.0) })

take_datum-Steps : (d : ItemData) (now : UnixMs) → Steps (take_datum d now)
unfolding take_datum
take_datum-Steps d now =
    bind-Steps _ _
      (if-Steps (d.typ == msg_data) (change_status d.item_name (status_of d.value) (time_of now d))
        (pure tt) (change_status-Steps d.item_name (status_of d.value) (time_of now d)) pure-Steps)
      (take_value-Steps d.typ d.item_name (time_of now d) d.value)

pub receive_data-IsInStep : (ds : List (ItemData × UnixMs)) → Steps (receive_data ds)
unfolding receive_data
receive_data-IsInStep [] = pure-Steps
receive_data-IsInStep ((d, now) ∷ rest) =
    bind-Steps _ _ (take_datum-Steps d now) (receive_data-IsInStep rest)

or_else-none : (l : Option StatusChange) → or_else l none ≡ l
or_else-none none = refl
or_else-none (some c) = refl

or_else_given :
    (b : Bool) (l o : Option StatusChange) (c : StatusChange)
    → or_else l (if b then some c else o) ≡ or_else (or_else l (if b then some c else none)) o
or_else_given true none o c = refl
or_else_given false none o c = refl
or_else_given true (some x) o c = refl
or_else_given false (some x) o c = refl

-- An item that has a row has a latest status.
latest-logs_item :
    (name : String) (log : List RowIdItemStatus) (o : Option StatusChange)
    → logs_item name log ≡ true
    → or_else (latest name log) o ≡ latest name log
unfolding logs_item
latest-logs_item name [] o h = absurd (cc h)
latest-logs_item name (row ∷ log) o h = elim (Bool-cases (row.item_status.item_name == name)) [
  | inl same ↦ rw same (sym (or_else_given true (latest name log) o row.item_status.change))
  | inr other ↦
      let l : or_else (latest name log) none ≡ latest name log = or_else-none (latest name log) in
      rw other (rw l (latest-logs_item name log o (rw other at h)))
]

put_statuses-last_rows :
    (name : String) (log : List RowIdItemStatus) (m : List (String × StatusChange))
    → lookup name (put_statuses (last_rows log) m) ≡ or_else (latest name log) (lookup name m)
unfolding put_statuses last_rows
put_statuses-last_rows name [] m = refl
put_statuses-last_rows name (row ∷ log) m =
    let own = row.item_status.item_name in
    let c = row.item_status.change in
    elim (Bool-cases (logs_item own log)) [
      | inl logged ↦ rw logged (
          put_statuses-last_rows name log m ∙ elim (Bool-cases (own == name)) [
            | inl same ↦
                let e : own ≡ name = (string_keys.beq_iff own name).0 same in
                let there : logs_item name log ≡ true = rw e at logged in
                rw same (
                  latest-logs_item name log (lookup name m) there
                  ∙ rw (latest-logs_item name log (some c) there)
                      (sym (latest-logs_item name log (lookup name m) there)))
            | inr other ↦ rw other (rw (or_else-none (latest name log)) refl)
          ])
      | inr not_logged ↦ rw not_logged (
          put_statuses-last_rows name log (insert own c m)
          ∙ ap (or_else (latest name log)) (lookup-insert own name c m)
          ∙ or_else_given (own == name) (latest name log) (lookup name m) c)
    ]

load_statuses_lem :
    (db : LocalDb)
    → db.faults ≡ []
    → (load_statuses db).0 ≡ ok (put_statuses (last_rows db.status_log) [])
unfolding load_statuses get_items_latest_status statement ◌>>=◌ pure
load_statuses_lem db calm = rw calm refl

-- After any measurements with a database that works, from a state in which memory and log agree, the
-- program that starts again loads from the database, for every item, the very status that was in
-- memory: nothing is lost by the restart.
pub load_statuses-receive_data :
    (ds : List (ItemData × UnixMs)) (s : Ingest)
    → IsInStep s
    → (m : List (String × StatusChange)) × ((load_statuses (receive_data ds s).1.db).0 ≡ ok m)
      × ((name : String) → lookup name m ≡ lookup name (receive_data ds s).1.items_status)
load_statuses-receive_data ds s h =
    let s' : Ingest = (receive_data ds s).1 in
    let h' : IsInStep s' = (receive_data-IsInStep ds s h).1 in
    (
      put_statuses (last_rows s'.db.status_log) [],
      load_statuses_lem s'.db h'.works,
      λ name.
          put_statuses-last_rows name s'.db.status_log []
          ∙ or_else-none (latest name s'.db.status_log)
          ∙ sym (h'.agrees name),
    )
