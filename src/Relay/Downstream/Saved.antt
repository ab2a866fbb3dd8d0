-- ===== src/Relay/Downstream/Saved.antt =====
-- The points of the missing data in the downstream's database: which are stored, and which are told of.
use mathlib.Core.Path.{subst, sym}
use tidegauge_backend.Prelude.{
  List, [], ◌∷◌, ◌++◌, ◌≡◌, refl, ◌∙◌, Bool, true, false, ltb, if◌then◌else◌,
}
use tidegauge_backend.Types.{Uuid}
use tidegauge_backend.Wire.{DataPoint}
use tidegauge_backend.Db.{Database, contains_illegal_character}
use tidegauge_backend.Db.History.{save_data_history, make_sure_table_exist}
use tidegauge_backend.Db.History.Arrivals.{
  Arrival, under, Round, save_data_history-Round, Delivered, Since, nothing-Delivered, Round-Since,
  more-Delivered,
}
use tidegauge_backend.Db.History.Made.{
  save_data_history-ok, make_sure_table_exist-ok, make_sure_table_exist-Round,
}
use tidegauge_backend.Station.DbStore.{changed}
use tidegauge_backend.Exec.{Exec, Result, ok, pure, bind_assoc, bind_same, ◌>>=◌, ◌>>◌}
use tidegauge_backend.Relay.{
  DownstreamStore, Codec, Peer, Notice, publish_miss_data, on_store, notify,
}
use tidegauge_backend.Relay.DbStore.{db_downstream_store}
use tidegauge_backend.Relay.Downstream.{save_points}
use tidegauge_backend.Relay.Downstream.Missing.{save_all}

-- All that the batches bring, in order.
abbrev pub arrivals : List (Uuid × List DataPoint) → List Arrival
arrivals [] = []
arrivals ((id, ps) ∷ rest) = under id ps ++ arrivals rest

-- No name of an item has a character that a table's name may not have.
abbrev pub AllLegal : List Arrival → Type 0
AllLegal [] = Unit
AllLegal (a ∷ ps) = (contains_illegal_character a.1.item_name ≡ false) × AllLegal ps

-- What is published of a new one.
abbrev pub told_missing : Arrival → Notice
told_missing (id, p) =
    publish_miss_data (record { station_id = id; item_name = p.item_name })
      (record { value = p.value; millisecond = p.unix_ms })

module _ (start : Database) where
  -- The action works, and what it does is to save these points.
  pub record Finished (earlier ps : List Arrival) (s : Peer Database)
      (r : Result {0} Unit × Peer Database) : Type 0 where
    pub works : r.0 ≡ ok tt
    pub saves : Delivered told_missing start earlier ps s.store s.notices r.1.store r.1.notices

  abbrev pub Finishes : List Arrival → List Arrival → Exec (Peer Database) Unit → Type 0
  Finishes earlier ps m =
      (s : Peer Database) → Since start earlier s.store → Finished earlier ps s (m s)

  module _ (codec : Codec) (other : DownstreamStore Database) where
    abbrev pub store : DownstreamStore Database
    store = db_downstream_store other

    -- One point, with what follows it.
    point-Finished :
        (id : Uuid) (p : DataPoint) (qs : List Arrival) (m : Exec (Peer Database) Unit)
        (earlier : List Arrival) (s : Peer Database)
        → contains_illegal_character p.item_name ≡ false
        → Finishes ((id, p) ∷ earlier) qs m
        → Since start earlier s.store
        → Finished earlier ((id, p) ∷ qs) s (
            (do
              on_store (store.ensure_data_table p.item_name)
              inserted ← on_store (store.save_data_history id p.item_name p.value p.unix_ms)
              if inserted then notify (told_missing (id, p)) else pure tt
              m)
              s)
    unfolding ◌>>=◌ on_store changed notify pure
    point-Finished id p qs m earlier s legal next since =
        let d1 : Database = (make_sure_table_exist p.item_name s.store).1 in
        let d2 : Database = (save_data_history id p.item_name p.value p.unix_ms d1).1 in
        let (n, saved) = save_data_history-ok id p s.store legal in
        let made : (make_sure_table_exist p.item_name s.store).0 ≡ ok tt =
          make_sure_table_exist-ok p.item_name s.store legal in
        rw (made, saved)
          (told (ltb 0 n) d2 (
            make_sure_table_exist-Round id p s.store d2 (ltb 0 n)
              (save_data_history-Round id p d1 n saved)))
      where
        told :
            (b : Bool) (d : Database)
            → Round (id, p) s.store d b
            → Finished earlier ((id, p) ∷ qs) s (
                ((if b then notify (told_missing (id, p)) else pure tt) >> m)
                  (record s { store = d }))
        told true d r =
            let t : Peer Database = record s {
              store = d;
              notices = s.notices ++ told_missing (id, p) ∷ [];
            } in
            let f : Finished ((id, p) ∷ earlier) qs t (m t) =
              next t (Round-Since told_missing start (id, p) earlier s.store d true since r) in
            record {
              works = f.works;
              saves =
                  more-Delivered told_missing start (id, p) earlier qs s.store d _ true s.notices
                    t.notices _ since r refl f.saves;
            }
        told false d r =
            let t : Peer Database = record s { store = d } in
            let f : Finished ((id, p) ∷ earlier) qs t (m t) =
              next t (Round-Since told_missing start (id, p) earlier s.store d false since r) in
            record {
              works = f.works;
              saves =
                  more-Delivered told_missing start (id, p) earlier qs s.store d _ false s.notices
                    s.notices _ since r refl f.saves;
            }

    save_points-Finishes :
        (id : Uuid) (ps : List DataPoint) (qs : List Arrival) (m : Exec (Peer Database) Unit)
        → AllLegal (under id ps)
        → ((earlier : List Arrival) → Finishes earlier qs m)
        → (earlier : List Arrival)
        → Finishes earlier (under id ps ++ qs) (save_points codec store id ps >> m)
    unfolding save_points ◌>>=◌
    save_points-Finishes id [] qs m legal next earlier s since = next earlier s since
    save_points-Finishes id (p ∷ ps) qs m legal next earlier s since =
        subst (Finished earlier ((id, p) ∷ (under id ps ++ qs)) s)
          (sym (
            bind_assoc _ _ (on_store (store.ensure_data_table p.item_name)) s
            ∙ bind_same _ _ (on_store (store.ensure_data_table p.item_name)) s (λ u s1.
              bind_assoc _ _ (on_store (store.save_data_history id p.item_name p.value p.unix_ms))
                s1
              ∙ bind_same _ _ (on_store (store.save_data_history id p.item_name p.value p.unix_ms))
                  s1
                  (λ inserted s2.
                    bind_assoc _ _ (if inserted then notify (told_missing (id, p)) else pure tt)
                      s2))))
          (point-Finished id p (under id ps ++ qs) (save_points codec store id ps >> m) earlier s
            legal.0 (save_points-Finishes id ps qs m legal.1 next ((id, p) ∷ earlier)) since)

    left_legal : (xs ys : List Arrival) → AllLegal (xs ++ ys) → AllLegal xs
    left_legal [] ys h = tt
    left_legal (x ∷ xs) ys h = (h.0, left_legal xs ys h.1)

    right_legal : (xs ys : List Arrival) → AllLegal (xs ++ ys) → AllLegal ys
    right_legal [] ys h = h
    right_legal (x ∷ xs) ys h = right_legal xs ys h.1

    pub save_all-Finishes :
        (ms : List (Uuid × List DataPoint)) (earlier : List Arrival)
        → AllLegal (arrivals ms)
        → Finishes earlier (arrivals ms) (save_all codec store ms)
    unfolding save_all pure
    save_all-Finishes [] earlier legal s since = record {
      works = refl;
      saves = nothing-Delivered told_missing start earlier s.store s.notices;
    }
    save_all-Finishes ((id, ps) ∷ rest) earlier legal s since =
        save_points-Finishes id ps (arrivals rest) (save_all codec store rest)
          (left_legal (under id ps) (arrivals rest) legal)
          (λ e. save_all-Finishes rest e (right_legal (under id ps) (arrivals rest) legal)) earlier
          s since
