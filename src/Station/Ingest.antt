-- ===== src/Station/Ingest.antt =====
-- `handleDataBatch` of tide_server/syncv2/station/server.go over the database: what is stored, and
-- who is told.
use tidegauge_backend.Prelude.{
  ℕ, String, List, [], ◌∷◌, ◌++◌, append-nil, Bool, true, false, Option, none, some, if◌then◌else◌,
  ◌≡◌, refl, arith, map, Bool-cases, inl, inr, ◌∙◌, ltb, ap, string_keys,
}
use tidegauge_backend.Types.{Uuid, UnixMs, Float64, StationInfo, no_status}
use tidegauge_backend.Wire.{DataPoint, DataBatch, is_gpio}
use tidegauge_backend.Exec.{Exec, Result, Result-cases, ok, err, ◌>>=◌, ignoring}
use tidegauge_backend.Db.{Database, row_keys}
use tidegauge_backend.Db.History.{save_data_history}
use tidegauge_backend.Db.History.Saved.{stored, key_of}
use tidegauge_backend.Db.History.Arrivals.{
  Arrival, under, at_place, brought, kept_or, is_there, among, fresh, Round,
  save_data_history-Round, Delivered, Since, nothing-Delivered, Round-Since, more-Delivered,
}
use tidegauge_backend.Db.StatusLog.{update_item_status}
use tidegauge_backend.Station.{Session, Notice, on_store, notify}
use tidegauge_backend.Station.Server.{
  handle_data_batch, handle_points, handle_point, save_point, data_notice,
}
use tidegauge_backend.Station.DbStore.{db_store, changed}

module _ (sync : Uuid → StationInfo → Exec Database Unit) (id : Uuid) (replay : Bool) where
  abbrev note : Arrival → Notice
  note (station, p) = data_notice station replay p

  -- What one point does, where it succeeds.
  record PointDone (p : DataPoint) (s t : Session Database) : Type 0 where
    new : Bool
    round : Round (id, p) s.store t.store new
    told : t.notices ≡ (if new then s.notices ++ data_notice id replay p ∷ [] else s.notices)

  -- Where the save returned `n` and the database `d`, the rest of the round.
  after_save : DataPoint → ℕ → Database → Session Database → Session Database
  after_save p n d s =
      if ltb 0 n
      then record s { store = d; notices = s.notices ++ data_notice id replay p ∷ [] }
      else record s { store = d }

  after_save-PointDone :
      (p : DataPoint) (n : ℕ) (s : Session Database)
      → (save_data_history id p.item_name p.value p.unix_ms s.store).0 ≡ ok n
      → PointDone p s
          (after_save p n (save_data_history id p.item_name p.value p.unix_ms s.store).1 s)
  unfolding after_save
  after_save-PointDone p n s h =
      split (ltb 0 n) (save_data_history id p.item_name p.value p.unix_ms s.store).1
        (save_data_history-Round id p s.store n h)
    where
      split :
          (b : Bool) (d : Database)
          → Round (id, p) s.store d b
          → PointDone p s (
              if b
              then record s { store = d; notices = s.notices ++ data_notice id replay p ∷ [] }
              else record s { store = d })
      split true d r = record { new = true; round = r; told = refl }
      split false d r = record { new = false; round = r; told = refl }

  save_point-PointDone :
      (p : DataPoint) (s : Session Database)
      → (save_point (db_store sync) id replay p s).0 ≡ ok tt
      → PointDone p s (save_point (db_store sync) id replay p s).1
  unfolding save_point ◌>>=◌ changed on_store notify after_save
  save_point-PointDone p s e =
      go (save_data_history id p.item_name p.value p.unix_ms s.store).0 refl
    where
      go :
          (r : Result ℕ)
          → (save_data_history id p.item_name p.value p.unix_ms s.store).0 ≡ r
          → PointDone p s (save_point (db_store sync) id replay p s).1
      go (err x) h = absurd (cc (rw (h, changed) at e))
      go (ok n) h = rw h (elim (Bool-cases (ltb 0 n)) [
        | inl new ↦ rw new (rw new at (after_save-PointDone p n s h))
        | inr old ↦ rw old (rw old at (after_save-PointDone p n s h))
      ])

  -- The status update of a GPIO point touches neither the data nor the notices.
  marked : DataPoint → Session Database → Session Database
  marked p s = (on_store (changed (update_item_status id p.item_name no_status p.unix_ms)) s).1

  from_marked :
      (p : DataPoint) (s t : Session Database) → PointDone p (marked p s) t → PointDone p s t
  unfolding marked on_store changed ◌>>=◌ update_item_status stored
  from_marked p s t h = record {
    new = h.new;
    round = record { holds = h.round.holds; news = h.round.news };
    told = h.told;
  }

  handle_point-PointDone :
      (p : DataPoint) (s : Session Database)
      → (handle_point (db_store sync) id replay p s).0 ≡ ok tt
      → PointDone p s (handle_point (db_store sync) id replay p s).1
  unfolding handle_point ignoring marked
  handle_point-PointDone p s e = elim (Bool-cases (is_gpio p.kind)) [
    | inl gpio ↦ rw gpio (
        from_marked p s (save_point (db_store sync) id replay p (marked p s)).1
          (save_point-PointDone p (marked p s) (rw gpio at e)))
    | inr plain ↦ rw plain (save_point-PointDone p s (rw plain at e))
  ]

  handle_points-Delivered :
      (start : Database) (earlier : List Arrival) (ps : List DataPoint) (s : Session Database)
      → Since start earlier s.store
      → (handle_points (db_store sync) id replay ps s).0 ≡ ok tt
      → let t = (handle_points (db_store sync) id replay ps s).1 in
        Delivered note start earlier (under id ps) s.store s.notices t.store t.notices
  unfolding handle_points ◌>>=◌
  handle_points-Delivered start earlier [] s since e =
      nothing-Delivered note start earlier s.store s.notices
  handle_points-Delivered start earlier (p ∷ ps) s since e =
      elim (Result-cases (handle_point (db_store sync) id replay p s).0) [
        | inl (x, h) ↦ absurd (cc (rw h at e))
        | inr (u, h) ↦
            let s1 : Session Database = (handle_point (db_store sync) id replay p s).1 in
            let d : PointDone p s s1 = handle_point-PointDone p s h in
            let rest =
              handle_points-Delivered start ((id, p) ∷ earlier) ps s1
                (Round-Since note start (id, p) earlier s.store s1.store d.new since d.round)
                (rw h at e) in
            rw h (
              more-Delivered note start (id, p) earlier (under id ps) s.store s1.store _ d.new
                s.notices s1.notices _ since d.round d.told rest)
      ]

  -- A data batch that is handled without an error leaves, at every place of every station, the value
  -- that was stored there, or else the one of the first point that the batch has for the place, and
  -- publishes, in the order of the batch and each once, exactly the points that were neither stored
  -- before nor carried by an earlier point of the batch.
  pub handle_data_batch-fresh :
      (batch : DataBatch) (s : Session Database)
      → batch.replay ≡ replay
      → (handle_data_batch (db_store sync) id batch s).0 ≡ ok tt
      → let t = (handle_data_batch (db_store sync) id batch s).1 in
        ((station : Uuid) (item_name : String) (at : UnixMs)
          → stored t.store station item_name at
            ≡ kept_or
                (stored s.store station item_name at)
                (brought (under id batch.points) station item_name at))
        × (t.notices
            ≡ s.notices
              ++ map (λ a. data_notice a.0 replay a.1) (fresh s.store [] (under id batch.points)))
  unfolding handle_data_batch
  handle_data_batch-fresh batch s r e =
      let e' : (handle_points (db_store sync) id replay batch.points s).0 ≡ ok tt = rw r at e in
      let d = handle_points-Delivered s.store [] batch.points s (λ station item at. refl) e' in
      rw r (d.holds, d.told)

  -- What is brought is among the points, and a place of theirs is brought a value.
  brought-among :
      (ps : List Arrival) (station : Uuid) (item : String) (at : UnixMs)
      → is_there (brought ps station item at) ≡ among ps station item at
  brought-among [] station item at = refl
  brought-among (a ∷ ps) station item at = elim (Bool-cases (at_place a station item at)) [
    | inl here ↦ rw here refl
    | inr other ↦ rw other (brought-among ps station item at)
  ]

  fresh-stored :
      (db : Database) (earlier ps : List Arrival)
      → ((station : Uuid) (item : String) (at : UnixMs)
          → among ps station item at ≡ true
          → is_there (stored db station item at) ≡ true)
      → fresh db earlier ps ≡ []
  fresh-stored db earlier [] all = refl
  fresh-stored db earlier ((station, p) ∷ ps) all =
      let here : is_there (stored db station p.item_name p.unix_ms) ≡ true =
        all station p.item_name p.unix_ms (
          ground (
            arith,
            string_keys.beq_iff p.item_name p.item_name,
            row_keys.beq_iff (key_of station p.unix_ms) (key_of station p.unix_ms),
          )) in
      let rest : fresh db ((station, p) ∷ earlier) ps ≡ [] =
        fresh-stored db ((station, p) ∷ earlier) ps (λ st i a h. all st i a (ground (arith, h))) in
      ground (arith, here, rest)

  kept : (o b : Option Float64) → (is_there b ≡ true → is_there o ≡ true) → kept_or o b ≡ o
  kept none none h = refl
  kept none (some v) h = absurd (cc (h refl))
  kept (some w) b h = refl

  kept_or-there : (o b : Option Float64) → is_there b ≡ true → is_there (kept_or o b) ≡ true
  kept_or-there none b h = h
  kept_or-there (some v) b h = refl

  -- A data batch that arrives a second time, also where other things were stored in between, and that
  -- is handled without an error both times: while what was stored at its first arrival is still there,
  -- it changes no stored value of any station and is published to nobody. Of the status of an item,
  -- which a GPIO point sets again, nothing is said.
  pub handle_data_batch-again :
      (batch : DataBatch) (s t : Session Database)
      → batch.replay ≡ replay
      → ((station : Uuid) (item_name : String) (at : UnixMs)
          → is_there
              (stored (handle_data_batch (db_store sync) id batch s).1.store station item_name at)
            ≡ true
          → is_there (stored t.store station item_name at) ≡ true)
      → (handle_data_batch (db_store sync) id batch s).0 ≡ ok tt
      → (handle_data_batch (db_store sync) id batch t).0 ≡ ok tt
      → ((handle_data_batch (db_store sync) id batch t).1.notices ≡ t.notices)
        × ((station : Uuid) (item_name : String) (at : UnixMs)
            → stored (handle_data_batch (db_store sync) id batch t).1.store station item_name at
              ≡ stored t.store station item_name at)
  handle_data_batch-again batch s t r later e e' =
      let first = handle_data_batch-fresh batch s r e in
      let second = handle_data_batch-fresh batch t r e' in
      let ps : List Arrival = under id batch.points in
      let all : (station : Uuid) (i : String) (a : UnixMs)
          → is_there (brought ps station i a) ≡ true
          → is_there (stored t.store station i a) ≡ true =
        λ st i a h. later st i a (
          ap is_there (first.0 st i a)
          ∙ kept_or-there (stored s.store st i a) (brought ps st i a) h) in
      (
        second.1
            ∙ rw (fresh-stored t.store [] ps (λ st i a h. all st i a (brought-among ps st i a ∙ h)))
                (append-nil t.notices),
        λ st i a. second.0 st i a ∙ kept (stored t.store st i a) (brought ps st i a) (all st i a),
      )
