-- ===== src/Gauge/Recorded.antt =====
-- What `receiveData` of tide_client/controller/common.go stores and what it publishes.
use tidegauge_backend.Prelude.{
  ℕ, String, List, [], ◌∷◌, ◌++◌, Bool, true, false, Option, none, some, ◌≡◌, refl, ◌∙◌, sym, ap,
  ◌⊎◌, inl, inr, append-nil, append_assoc, ◌==◌, string_keys, nat_keys, lookup, Bool-cases,
  if◌then◌else◌,
}
use tidegauge_backend.Types.{
  Error, Float64, UnixMs, Status, StatusChange, RowIdItemStatus, DataTime,
}
use tidegauge_backend.Exec.{Exec, ok, err, pure, modify, ◌>>=◌, attempt}
use tidegauge_backend.Client.Codec.{
  SendMsg, Body, item_data, row_status, rpi_data, foreign, msg_data,
}
use tidegauge_backend.Gauge.{
  LocalDb, statement, insert_log, new_row, save_item_status_log, save_data, insert_data,
}
use tidegauge_backend.Gauge.Receive.{
  ItemData, Ingest, on_db, publish, status_in, status_msg, status_of, data_msg, time_of, announce,
  enter_status, change_status, take_value, take_datum, receive_data,
}

-- The status rows among the messages.
abbrev pub row_of : Body → List RowIdItemStatus → List RowIdItemStatus
row_of (row_status row) rows = row ∷ rows
row_of (item_data _) rows = rows
row_of (rpi_data _) rows = rows
row_of foreign rows = rows

abbrev pub status_rows : List SendMsg → List RowIdItemStatus
status_rows [] = []
status_rows (msg ∷ rest) = row_of msg.body (status_rows rest)

status_rows-append :
    (xs ys : List SendMsg) → status_rows (xs ++ ys) ≡ status_rows xs ++ status_rows ys
status_rows-append [] ys = refl
status_rows-append (x ∷ xs) ys = rw (status_rows-append xs ys) (split x.body)
  where
    split :
        (b : Body)
        → row_of b (status_rows xs ++ status_rows ys) ≡ row_of b (status_rows xs) ++ status_rows ys
    split (row_status row) = refl
    split (item_data _) = refl
    split (rpi_data _) = refl
    split foreign = refl

-- From one state to another, exactly the rows that were added to the log were published.
abbrev pub IsRecorded : Ingest → Ingest → Type 0
IsRecorded s s' =
    (new : List SendMsg) × (s'.published ≡ s.published ++ new)
    × (s'.db.status_log ≡ s.db.status_log ++ status_rows new)

IsRecorded-same :
    (s s' : Ingest)
    → s'.published ≡ s.published
    → s'.db.status_log ≡ s.db.status_log
    → IsRecorded s s'
IsRecorded-same s s' p l =
    ([], p ∙ sym (append-nil s.published), l ∙ sym (append-nil s.db.status_log))

IsRecorded-trans : (s s' s'' : Ingest) → IsRecorded s s' → IsRecorded s' s'' → IsRecorded s s''
IsRecorded-trans s s' s'' (new, p, l) (more, q, m) = (
  new ++ more,
  q ∙ rw p (append_assoc s.published new more),
  m
      ∙ rw l (append_assoc s.db.status_log (status_rows new) (status_rows more))
      ∙ ap (λ (r : List RowIdItemStatus). s.db.status_log ++ r) (sym (status_rows-append new more)),
)

-- A row is either saved, as the last one, or nothing is.
pub save_item_status_log_cases :
    (name : String) (status : Status) (at : UnixMs) (db : LocalDb)
    → ((e : Error) × (fs : List (Option Error)) × (save_item_status_log name status at db
          ≡ (err e, record db { faults = fs })))
      ⊎ ((fs : List (Option Error)) × (save_item_status_log name status at db ≡ (
        ok (new_row name status at db.status_log).row_id,
        record db {
          status_log = db.status_log ++ new_row name status at db.status_log ∷ [];
          faults = fs;
        },
      )))
unfolding save_item_status_log statement insert_log new_row
save_item_status_log_cases name status at db = split db.faults refl
  where
    split :
        (faults : List (Option Error))
        → db.faults ≡ faults
        → ((e : Error) × (fs : List (Option Error)) × (save_item_status_log name status at db
              ≡ (err e, record db { faults = fs })))
          ⊎ ((fs : List (Option Error)) × (save_item_status_log name status at db ≡ (
            ok (new_row name status at db.status_log).row_id,
            record db {
              status_log = db.status_log ++ new_row name status at db.status_log ∷ [];
              faults = fs;
            },
          )))
    split [] e = inr ([], rw e refl)
    split (none ∷ fs) e = inr (fs, rw e refl)
    split (some x ∷ fs) e = inl (x, fs, rw e refl)

-- The action ends without an error, and publishes the rows that it adds to the log.
abbrev Records : Exec Ingest Unit → Type 0
Records m = (s : Ingest) → ((m s).0 ≡ ok tt) × IsRecorded s (m s).1

bind-Records : (m n : Exec Ingest Unit) → Records m → Records n → Records (m >>= (λ _. n))
unfolding ◌>>=◌
bind-Records m n hm hn s =
    rw ((hm s).0) ((hn (m s).1).0, IsRecorded-trans s (m s).1 (n (m s).1).1 (hm s).1 (hn (m s).1).1)

if-Records :
    (b : Bool) (m n : Exec Ingest Unit) → Records m → Records n → Records (if b then m else n)
if-Records true m n hm hn = hm
if-Records false m n hm hn = hn

pure-Records : Records (pure tt)
unfolding pure
pure-Records s = (refl, IsRecorded-same s s refl refl)

change_status-Records :
    (name : String) (status : Status) (at : UnixMs) → Records (change_status name status at)
unfolding change_status on_db announce enter_status publish attempt modify ◌>>=◌ pure new_row
change_status-Records name status at s =
    elim (Bool-cases (status_in (lookup name s.items_status) == status)) [
      | inl same ↦ rw same (refl, IsRecorded-same s s refl refl)
      | inr other ↦ elim (save_item_status_log_cases name status at s.db) [
        | inl (e, fs, failed) ↦
            let change : StatusChange = record { status = status; changed_at = at } in
            let s' : Ingest = record (enter_status name change s) {
              db = record s.db { faults = fs };
            } in
            rw (other, failed) (refl, IsRecorded-same s s' refl refl)
        | inr (fs, saved) ↦
            rw (other, saved)
              (refl, (status_msg (new_row name status at s.db.status_log) ∷ [], refl, refl))
      ]
    ]

-- To save a value leaves the log as it is.
save_data-log :
    (name : String) (v : Float64) (at : UnixMs) (db : LocalDb)
    → (save_data name v at db).1.status_log ≡ db.status_log
unfolding save_data statement insert_data
save_data-log name v at db = split db.faults refl
  where
    inserted :
        (o : Option (List DataTime)) (d : LocalDb)
        → (insert_data name (record { value = v; millisecond = at }) o d).1.status_log
          ≡ d.status_log
    inserted none d = refl
    inserted (some rows) d = refl

    split :
        (faults : List (Option Error))
        → db.faults ≡ faults
        → (save_data name v at db).1.status_log ≡ db.status_log
    split [] e = rw e (inserted (lookup name db.tables) (record db { faults = [] }))
    split (none ∷ fs) e = rw e (inserted (lookup name db.tables) (record db { faults = fs }))
    split (some x ∷ fs) e = rw e refl

take_value-Records :
    (typ : ℕ) (name : String) (at : UnixMs) (value : Option Float64)
    → Records (take_value typ name at value)
unfolding take_value on_db publish attempt pure
take_value-Records typ name at none s = (refl, IsRecorded-same s s refl refl)
take_value-Records typ name at (some v) s = (
  refl,
  (
    data_msg typ name v at ∷ [],
    refl,
    save_data-log name v at s.db ∙ sym (append-nil s.db.status_log),
  ),
)

take_datum-Records : (d : ItemData) (now : UnixMs) → Records (take_datum d now)
unfolding take_datum
take_datum-Records d now =
    bind-Records _ _
      (if-Records (d.typ == msg_data)
        (change_status d.item_name (status_of d.value) (time_of now d)) (pure tt)
        (change_status-Records d.item_name (status_of d.value) (time_of now d)) pure-Records)
      (take_value-Records d.typ d.item_name (time_of now d) d.value)

-- Whatever the devices measure and whichever statements of the database fail, all of it is handled,
-- and the rows that are added to the status log are, in order, exactly the status messages that are
-- published.
pub receive_data-IsRecorded :
    (ds : List (ItemData × UnixMs)) (s : Ingest)
    → ((receive_data ds s).0 ≡ ok tt) × IsRecorded s (receive_data ds s).1
unfolding receive_data
receive_data-IsRecorded [] = pure-Records
receive_data-IsRecorded ((d, now) ∷ rest) =
    bind-Records _ _ (take_datum-Records d now) (receive_data-IsRecorded rest)
