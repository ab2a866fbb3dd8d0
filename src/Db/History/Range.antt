-- ===== src/Db/History/Range.antt =====
-- tide_server/db/history.go, `GetDataHistory`: the values of an item at a station, by time.
use tidegauge_backend.Prelude.{
  String, List, [], ◌∷◌, Bool, true, false, Option, none, some, lookup, if◌then◌else◌, string_keys,
  nat_keys, ◌==◌, ◌&&◌, ◌≡◌, refl, ◌∙◌, sym, inl, inr, arith, Bool-cases, ◌||◌,
}
use tidegauge_backend.Prelude.Int.{pos, ltb_ℤ, int_keys, ltb_ℤ-irrefl, ltb_ℤ-trans}
use tidegauge_backend.Types.{Uuid, UnixMs, Float64, DataTime}
use tidegauge_backend.Exec.{Exec, ok, err}
use tidegauge_backend.Db.{Database, DataTable, row_keys, contains_illegal_character}
use tidegauge_backend.Db.History.{illegal_table, undefined_table}
use tidegauge_backend.Db.History.Saved.{stored, key_of}

-- No bound where the end is 0.
abbrev within : UnixMs → UnixMs → UnixMs → Bool
within start stop at = ltb_ℤ start at && (stop == pos 0 || ltb_ℤ at stop)

-- `order by timestamp`.
put_by_time : DataTime → List DataTime → List DataTime
put_by_time d [] = d ∷ []
put_by_time d (x ∷ xs) =
    if ltb_ℤ x.millisecond d.millisecond then x ∷ put_by_time d xs else d ∷ x ∷ xs

rows_by_time : (UnixMs → Bool) → Uuid → DataTable → List DataTime
unfolding put_by_time
rows_by_time test station_id [] = []
rows_by_time test station_id ((k, v) ∷ rows) =
    let more = rows_by_time test station_id rows in
    if k.station_id == station_id && test k.place
    then put_by_time (record { value = v; millisecond = k.place }) more
    else more

-- `order by timestamp desc limit 1`.
latest_only : List DataTime → List DataTime
latest_only [] = []
latest_only (d ∷ []) = d ∷ []
latest_only (d ∷ e ∷ ds) = latest_only (e ∷ ds)

history_in : Uuid → UnixMs → UnixMs → DataTable → List DataTime
unfolding rows_by_time latest_only
history_in station_id start stop rows =
    if start == pos 0 && stop == pos 0
    then latest_only (rows_by_time (λ at. true) station_id rows)
    else rows_by_time (within start stop) station_id rows

select_in : Uuid → UnixMs → UnixMs → Option DataTable → Exec Database (List DataTime)
unfolding history_in
select_in station_id start stop none db = (err undefined_table, db)
select_in station_id start stop (some rows) db = (ok (history_in station_id start stop rows), db)

unfoldable pub get_data_history : Uuid → String → UnixMs → UnixMs → Exec Database (List DataTime)
unfolding select_in contains_illegal_character
get_data_history station_id item_name start stop db =
    if contains_illegal_character item_name
    then (err (illegal_table item_name), db)
    else select_in station_id start stop (lookup item_name db.tables) db

-- The value that a list gives for a time.
abbrev pub value_at : UnixMs → List DataTime → Option Float64
value_at at [] = none
value_at at (d ∷ ds) = if d.millisecond == at then some d.value else value_at at ds

-- The times ascend.
abbrev pub Ascending : List DataTime → Type 0
Ascending [] = Unit
Ascending (d ∷ []) = Unit
Ascending (d ∷ e ∷ ds) = (ltb_ℤ e.millisecond d.millisecond ≡ false) × Ascending (e ∷ ds)

put_by_time-value_at :
    (at : UnixMs) (d : DataTime) (ds : List DataTime)
    → value_at at (put_by_time d ds)
      ≡ (if d.millisecond == at then some d.value else value_at at ds)
unfolding put_by_time
put_by_time-value_at at d [] = refl
put_by_time-value_at at d (x ∷ xs) =
    let ih : value_at at (put_by_time d xs)
        ≡ (if d.millisecond == at then some d.value else value_at at xs) =
      put_by_time-value_at at d xs in
    elim (Bool-cases (ltb_ℤ x.millisecond d.millisecond)) [
      | inr late ↦ rw late refl
      | inl early ↦ rw early (elim (Bool-cases (x.millisecond == at)) [
        | inr other ↦ rw (other, ih) refl
        | inl same ↦ rw same (elim (Bool-cases (d.millisecond == at)) [
          | inr other ↦ rw other refl
          | inl same' ↦
              let e : x.millisecond ≡ d.millisecond =
                (int_keys.beq_iff x.millisecond at).0 same
                ∙ sym ((int_keys.beq_iff d.millisecond at).0 same') in
              let f : ltb_ℤ d.millisecond d.millisecond ≡ true = rw e at early in
              absurd (cc (f, ltb_ℤ-irrefl d.millisecond))
        ])
      ])
    ]

rows_by_time-value_at :
    (test : UnixMs → Bool) (station_id : Uuid) (at : UnixMs) (rows : DataTable)
    → value_at at (rows_by_time test station_id rows)
      ≡ (if test at then lookup (key_of station_id at) rows else none)
unfolding rows_by_time
rows_by_time-value_at test station_id at [] = ground arith
rows_by_time-value_at test station_id at ((k, v) ∷ rows) =
    let ih : value_at at (rows_by_time test station_id rows)
        ≡ (if test at then lookup (key_of station_id at) rows else none) =
      rows_by_time-value_at test station_id at rows in
    let put : value_at at (
          put_by_time (record { value = v; millisecond = k.place })
            (rows_by_time test station_id rows))
        ≡ (if k.place == at then some v else value_at at (rows_by_time test station_id rows)) =
      put_by_time-value_at at (record { value = v; millisecond = k.place })
        (rows_by_time test station_id rows) in
    elim (Bool-cases (k.station_id == station_id)) [
      | inr other ↦ rw other ih
      | inl here ↦ rw here (elim (Bool-cases (k.place == at)) [
        | inr then' ↦ rw then' (elim (Bool-cases (test k.place)) [
          | inl takes ↦ rw takes (put ∙ rw then' ih)
          | inr drops ↦ rw drops ih
        ])
        | inl now ↦
            let e : k.place ≡ at = (int_keys.beq_iff k.place at).0 now in
            rw now (elim (Bool-cases (test k.place)) [
              | inl takes ↦
                  let f : test at ≡ true = rw e at takes in rw (takes, f) (put ∙ rw now refl)
              | inr drops ↦
                  let f : test at ≡ false = rw e at drops in rw (drops, f) (ih ∙ rw f refl)
            ])
      ])
    ]

later :
    (x d : DataTime)
    → ltb_ℤ x.millisecond d.millisecond ≡ true
    → ltb_ℤ d.millisecond x.millisecond ≡ false
later x d early = elim (Bool-cases (ltb_ℤ d.millisecond x.millisecond)) [
  | inr h ↦ h
  | inl h ↦
      let f : ltb_ℤ x.millisecond x.millisecond ≡ true =
        ltb_ℤ-trans x.millisecond d.millisecond x.millisecond early h in
      absurd (cc (f, ltb_ℤ-irrefl x.millisecond))
]

put_by_time-Ascending :
    (d : DataTime) (ds : List DataTime) → Ascending ds → Ascending (put_by_time d ds)
unfolding put_by_time
put_by_time-Ascending d [] h = tt
put_by_time-Ascending d (x ∷ []) h = elim (Bool-cases (ltb_ℤ x.millisecond d.millisecond)) [
  | inl early ↦ rw early (later x d early, tt)
  | inr late ↦ rw late (late, tt)
]
put_by_time-Ascending d (x ∷ y ∷ ys) h =
    let ih : Ascending (put_by_time d (y ∷ ys)) = put_by_time-Ascending d (y ∷ ys) h.1 in
    elim (Bool-cases (ltb_ℤ x.millisecond d.millisecond)) [
      | inr late ↦ rw late (late, h)
      | inl early ↦ rw early (elim (Bool-cases (ltb_ℤ y.millisecond d.millisecond)) [
        | inl still ↦ rw still (h.0, rw still at ih)
        | inr found ↦ rw found (later x d early, rw found at ih)
      ])
    ]

rows_by_time-Ascending :
    (test : UnixMs → Bool) (station_id : Uuid) (rows : DataTable)
    → Ascending (rows_by_time test station_id rows)
unfolding rows_by_time
rows_by_time-Ascending test station_id [] = tt
rows_by_time-Ascending test station_id ((k, v) ∷ rows) =
    elim (Bool-cases (k.station_id == station_id && test k.place)) [
      | inr out ↦ rw out (rows_by_time-Ascending test station_id rows)
      | inl takes ↦
          rw takes (put_by_time-Ascending _ _ (rows_by_time-Ascending test station_id rows))
    ]

-- What is read of a station and an item between two times.
abbrev pub Between : Database → Uuid → String → UnixMs → UnixMs → List DataTime → Type 0
Between db station_id item_name start stop ds =
    ((at : UnixMs)
      → value_at at ds ≡ (if within start stop at then stored db station_id item_name at else none))
    × Ascending ds

-- GetDataHistory with a start or an end, for an item that has a table: the values that it gives are
-- exactly those that are stored for the station after the start and, where there is an end, before it,
-- at their times and in the order of the times.
pub get_data_history-stored :
    (station_id : Uuid) (item_name : String) (start stop : UnixMs) (rows : DataTable)
    (db : Database)
    → contains_illegal_character item_name ≡ false
    → lookup item_name db.tables ≡ some rows
    → (start == pos 0 && stop == pos 0) ≡ false
    → (ds : List DataTime) × ((get_data_history station_id item_name start stop db ≡ (ok ds, db))
        × Between db station_id item_name start stop ds)
unfolding get_data_history select_in history_in stored
get_data_history-stored station_id item_name start stop rows db legal found bounded = (
  rows_by_time (within start stop) station_id rows,
  (
    rw (legal, found, bounded) refl,
    (
      λ at. rw found (rows_by_time-value_at (within start stop) station_id at rows),
      rows_by_time-Ascending (within start stop) station_id rows,
    ),
  ),
)
