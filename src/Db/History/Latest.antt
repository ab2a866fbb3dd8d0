-- ===== src/Db/History/Latest.antt =====
-- GetItemsLatest of tide_server/db/history.go: the newest row of each item.
use tidegauge_backend.Prelude.{
  String, List, [], ◌∷◌, false, Option, none, some, lookup, string_keys, nat_keys, ◌==◌, ==_refl,
  ◌≡◌, refl, ◌⊎◌, inl, inr, arith, Bool-cases,
}
use mathlib.Core.Path.{subst}
use tidegauge_backend.Prelude.Int.{ℤ, ltb_ℤ, int_keys, ltb_ℤ-irrefl, ltb_ℤ-trans}
use tidegauge_backend.Types.{Uuid, UnixMs, Float64}
use tidegauge_backend.Exec.{Result, ok, err}
use tidegauge_backend.Db.{Database, DataTable, RowKey, row_keys, contains_illegal_character}
use tidegauge_backend.Db.History.{
  get_items_latest, items_latest_in, with_answer, latest_of, max_place, max_option,
}
use tidegauge_backend.Db.History.Saved.{stored, key_of}

-- `t` is there, and not before `at`.
abbrev NotBefore : Option ℤ → ℤ → Type 0
NotBefore none at = ⊥
NotBefore (some t) at = ltb_ℤ t at ≡ false

max_option-new : (o : Option ℤ) (x : ℤ) → NotBefore (max_option o x) x
max_option-new none x = ltb_ℤ-irrefl x
max_option-new (some y) x = elim (Bool-cases (ltb_ℤ y x)) [
  | inl less ↦ rw less (ltb_ℤ-irrefl x)
  | inr more ↦ rw more more
]

max_option-old : (o : Option ℤ) (x at : ℤ) → NotBefore o at → NotBefore (max_option o x) at
max_option-old none x at h = elim h [ ]
max_option-old (some y) x at h = elim (Bool-cases (ltb_ℤ y x)) [
  | inl less ↦ rw less (elim (Bool-cases (ltb_ℤ x at)) [
    | inl early ↦ absurd (cc (ltb_ℤ-trans y x at less early))
    | inr late ↦ late
  ])
  | inr more ↦ rw more h
]

max_place-bound :
    {V : Type 0} (station_id : Uuid) (at : ℤ) (v : V) (rows : List (RowKey × V))
    → lookup (key_of station_id at) rows ≡ some v
    → NotBefore (max_place station_id rows) at
unfolding max_place
max_place-bound station_id at v [] h = cc
max_place-bound station_id at v ((k, w) ∷ rows) h = elim (Bool-cases (k == key_of station_id at)) [
  | inl same ↦
      let e : k ≡ key_of station_id at = (row_keys.beq_iff k (key_of station_id at)).0 same in
      rw e (rw (==_refl station_id) (max_option-new (max_place station_id rows) at))
  | inr other ↦ elim (Bool-cases (k.station_id == station_id)) [
    | inl here ↦ rw here (
        max_option-old (max_place station_id rows) k.place at
          (max_place-bound station_id at v rows (rw other at h)))
    | inr there ↦ rw there (max_place-bound station_id at v rows (rw other at h))
  ]
]

-- What `max` gives is the time of a row.
max_option-cases : (o : Option ℤ) (x : ℤ) → (max_option o x ≡ some x) ⊎ (max_option o x ≡ o)
max_option-cases none x = inl refl
max_option-cases (some y) x = elim (Bool-cases (ltb_ℤ y x)) [
  | inl less ↦ inl (rw less)
  | inr more ↦ inr (rw more)
]

abbrev Held : {V : Type 0} → Uuid → List (RowKey × V) → Option ℤ → Type 0
Held station_id rows none = Unit
Held {V} station_id rows (some t) = (v : V) × (lookup (key_of station_id t) rows ≡ some v)

Held-cons :
    {V : Type 0} (station_id : Uuid) (k : RowKey) (w : V) (rows : List (RowKey × V)) (o : Option ℤ)
    → Held station_id rows o
    → Held station_id ((k, w) ∷ rows) o
Held-cons station_id k w rows none h = tt
Held-cons station_id k w rows (some t) h = elim (Bool-cases (k == key_of station_id t)) [
  | inl same ↦ (w, rw same)
  | inr other ↦ (h.0, rw other h.1)
]

max_place-Held :
    {V : Type 0} (station_id : Uuid) (rows : List (RowKey × V))
    → Held station_id rows (max_place station_id rows)
unfolding max_place
max_place-Held station_id [] = tt
max_place-Held station_id ((k, w) ∷ rows) = elim (Bool-cases (k.station_id == station_id)) [
  | inl here ↦
      let e : k.station_id ≡ station_id = (nat_keys.beq_iff k.station_id station_id).0 here in
      let p : k ≡ key_of station_id k.place = ground arith in
      rw here (elim (max_option-cases (max_place station_id rows) k.place) [
        | inl new ↦ rw new (w, rw ((row_keys.beq_iff k (key_of station_id k.place)).1 p))
        | inr old ↦ rw old (
            Held-cons station_id k w rows (max_place station_id rows)
              (max_place-Held station_id rows))
      ])
  | inr there ↦
      rw there
        (Held-cons station_id k w rows (max_place station_id rows) (max_place-Held station_id rows))
]

-- What GetItemsLatest answers for one item.
pub record IsLatest (db : Database) (station_id : Uuid) (item_name : String) (before t : UnixMs)
    : Type 0 where
  -- No stored row is newer.
  pub bound :
      (at : UnixMs) (v : Float64) → stored db station_id item_name at ≡ some v → ltb_ℤ t at ≡ false
  -- It is the time of a stored row, or the value that the caller gave.
  pub attained : (t ≡ before) ⊎ ((v : Float64) × (stored db station_id item_name t ≡ some v))

latest_of-IsLatest :
    (db : Database) (station_id : Uuid) (item_name : String) (before : UnixMs)
    → IsLatest db station_id item_name before (latest_of db station_id item_name before)
unfolding latest_of stored
latest_of-IsLatest db station_id item_name before = table (lookup item_name db.tables) refl
  where
    row :
        (rows : DataTable) (o : Option ℤ)
        → max_place station_id rows ≡ o
        → lookup item_name db.tables ≡ some rows
        → IsLatest db station_id item_name before (elim o [ none ↦ before | some t ↦ t ])
    row rows none e h = record {
      bound = λ at v s. absurd (
          subst (λ (x : Option ℤ). NotBefore x at) e
            (max_place-bound station_id at v rows (rw h at s)));
      attained = inl refl;
    }
    row rows (some t) e h = record {
      bound = λ at v s.
          subst (λ (x : Option ℤ). NotBefore x at) e
            (max_place-bound station_id at v rows (rw h at s));
      attained = inr (
          rw h
            (subst (λ (x : Option ℤ). Held station_id rows x) e (max_place-Held station_id rows)));
    }

    table :
        (o : Option DataTable)
        → lookup item_name db.tables ≡ o
        → IsLatest db station_id item_name before (elim o [
          | none ↦ before
          | some rows ↦ elim (max_place station_id rows) [ none ↦ before | some t ↦ t ]
        ])
    table none h = record { bound = λ at v s. absurd (cc (rw h at s)); attained = inl refl }
    table (some rows) h = row rows (max_place station_id rows) refl h

with_answer-ok :
    (a : String × UnixMs) (r : Result (List (String × UnixMs))) (latest : List (String × UnixMs))
    → with_answer a r ≡ ok latest
    → (others : List (String × UnixMs)) × (r ≡ ok others) × (latest ≡ a ∷ others)
with_answer-ok a (ok others) latest h = (others, refl, cc)
with_answer-ok a (err x) latest h = absurd (cc h)

items_latest_in_lem :
    (db : Database) (station_id : Uuid) (m latest : List (String × UnixMs))
    → items_latest_in db station_id m ≡ ok latest
    → (item_name : String) (before : UnixMs) → lookup item_name m ≡ some before
    → (t : UnixMs) × (lookup item_name latest ≡ some t) × IsLatest db station_id item_name before t
unfolding items_latest_in
items_latest_in_lem db station_id [] latest e i b h = absurd (cc h)
items_latest_in_lem db station_id ((j, own) ∷ rest) latest e i b h =
    elim (Bool-cases (contains_illegal_character j)) [
      | inl bad ↦ absurd (cc (rw bad at e))
      | inr good ↦
          let (others, r, l) =
            with_answer-ok (j, latest_of db station_id j own) (items_latest_in db station_id rest)
              latest (rw good at e) in
          rw l (elim (Bool-cases (j == i)) [
            | inl same ↦
                let p : j ≡ i = (string_keys.beq_iff j i).0 same in
                let q : some own ≡ some b = rw same at h in
                let o : own ≡ b = cc in
                (
                  latest_of db station_id j own,
                  rw same,
                  rw (← p, ← o) (latest_of-IsLatest db station_id j own),
                )
            | inr other ↦
                let rec = items_latest_in_lem db station_id rest others r i b (rw other at h) in
                (rec.0, rw other rec.1, rec.2)
          ])
    ]

-- Where it succeeds, every item asked for has an answer: a time than which no stored row of the
-- station is newer, and which is the time of a stored row or else the value given. The database is
-- only read.
pub get_items_latest_lem :
    (station_id : Uuid) (m latest : List (String × UnixMs)) (db : Database) (item_name : String)
    (before : UnixMs)
    → (get_items_latest station_id m db).0 ≡ ok latest
    → lookup item_name m ≡ some before
    → ((get_items_latest station_id m db).1 ≡ db)
      × ((t : UnixMs) × (lookup item_name latest ≡ some t)
          × IsLatest db station_id item_name before t)
unfolding get_items_latest
get_items_latest_lem station_id m latest db item_name before e asked =
    (refl, items_latest_in_lem db station_id m latest e item_name before asked)
