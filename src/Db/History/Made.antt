-- ===== src/Db/History/Made.antt =====
-- `MakeSureTableExist` of tide_server/db/item.go before `SaveDataHistory` of history.go.
use tidegauge_backend.Prelude.{
  ℕ, String, [], Bool, false, none, some, ◌==◌, string_keys, nat_keys, ◌≡◌, refl, Bool-cases,
  Option-cases, inl, inr, ◌∙◌, lookup, lookup-insert, ==_refl,
}
use tidegauge_backend.Prelude.Int.{int_keys}
use tidegauge_backend.Types.{Uuid, UnixMs}
use tidegauge_backend.Wire.{DataPoint}
use tidegauge_backend.Exec.{ok}
use tidegauge_backend.Db.{Database, DataTable, row_keys, contains_illegal_character, insert_new}
use tidegauge_backend.Db.History.{save_data_history, save_in, make_sure_table_exist, table_made}
use tidegauge_backend.Db.History.Saved.{stored, key_of}
use tidegauge_backend.Db.History.Arrivals.{Round}

-- `MakeSureTableExist` changes no value, and where the name is legal it works and a save does after it.
pub make_sure_table_exist-stored :
    (name : String) (db : Database) (station : Uuid) (item : String) (at : UnixMs)
    → stored (make_sure_table_exist name db).1 station item at ≡ stored db station item at
unfolding make_sure_table_exist table_made stored
make_sure_table_exist-stored name db station item at =
    elim (Bool-cases (contains_illegal_character name)) [
      | inl bad ↦ rw bad refl
      | inr good ↦ elim (Option-cases (lookup name db.tables)) [
        | inr (rows, h) ↦ rw (good, h) refl
        | inl h ↦
            rw (good, h)
              (rw (lookup-insert name item [] db.tables) (elim (Bool-cases (name == item)) [
                | inr other ↦ rw other refl
                | inl same ↦
                    let e : name ≡ item = (string_keys.beq_iff name item).0 same in
                    let f : lookup item db.tables ≡ none = rw e at h in rw (same, f) refl
              ]))
      ]
    ]

pub make_sure_table_exist-ok :
    (name : String) (db : Database)
    → contains_illegal_character name ≡ false
    → (make_sure_table_exist name db).0 ≡ ok tt
unfolding make_sure_table_exist
make_sure_table_exist-ok name db good = rw good refl

made-there :
    (name : String) (db : Database)
    → contains_illegal_character name ≡ false
    → (rows : DataTable) × (lookup name (make_sure_table_exist name db).1.tables ≡ some rows)
unfolding make_sure_table_exist table_made
made-there name db good = elim (Option-cases (lookup name db.tables)) [
  | inr (rows, h) ↦ (rows, rw (good, h) h)
  | inl h ↦ ([], rw (good, h) (lookup-insert name name [] db.tables ∙ rw (==_refl name) refl))
]

pub save_data_history-ok :
    (id : Uuid) (p : DataPoint) (db : Database)
    → contains_illegal_character p.item_name ≡ false
    → (n : ℕ) × ((save_data_history id p.item_name p.value p.unix_ms
          (make_sure_table_exist p.item_name db).1).0
        ≡ ok n)
unfolding save_data_history save_in
save_data_history-ok id p db good =
    let d : Database = (make_sure_table_exist p.item_name db).1 in
    let (rows, h) = made-there p.item_name db good in
    ((insert_new (key_of id p.unix_ms) p.value rows).1, rw (good, h) refl)

-- The two together, as they follow each other.
pub make_sure_table_exist-Round :
    (id : Uuid) (p : DataPoint) (db db' : Database) (new : Bool)
    → Round (id, p) (make_sure_table_exist p.item_name db).1 db' new
    → Round (id, p) db db' new
make_sure_table_exist-Round id p db db' new r = record {
  holds = λ station item at.
      r.holds station item at
      ∙ rw (make_sure_table_exist-stored p.item_name db station item at) refl;
  news = r.news ∙ rw (make_sure_table_exist-stored p.item_name db id p.item_name p.unix_ms) refl;
}
