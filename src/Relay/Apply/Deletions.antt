-- ===== src/Relay/Apply/Deletions.antt =====
-- Which stations a full configuration deletes. The database of the downstream is any; around it, a log
-- of the calls of `DelUpstreamStation`.
use tidegauge_backend.Prelude.{
  ℕ, String, List, [], ◌∷◌, ◌++◌, Bool, true, false, Option, none, some, ◌≡◌, refl, sym, ap, ◌∙◌,
  contains, nat_keys, if◌then◌else◌, Bool-cases, inl, inr, append-nil, append_assoc,
}
use tidegauge_backend.Types.{Uuid, StationItem}
use tidegauge_backend.Exec.{Exec, Result-cases, ok, pure, ◌>>=◌, ◌>>◌}
use tidegauge_backend.Exec.Keeps.{
  Keeps, keeps_rules, bind-Keeps, if-Keeps, pure-Keeps, attempt-Keeps,
}
use tidegauge_backend.Relay.{
  Station, Device, Item, DownstreamStore, Codec, Peer, Notice, on_store, on_change, notify,
  publish_config, station_id_body, device_body, item_body,
}
use tidegauge_backend.Relay.Wire.{
  RelayStationFull, RelayDevice, RelayItem, RelayDeviceRecord, RelayConfigBatch,
}
use tidegauge_backend.Relay.Apply.{
  or_empty, sync_devices, del_devices, sync_items, del_items, apply_station, apply_parsed,
  apply_stations, new_station_set, del_stations, sync_device_records, apply_full_config,
}

-- A database and the stations that were to be deleted.
abbrev pub Logged : Type 0 → Type 0
Logged D = D × List Uuid

abbrev pub beside : {D A : Type 0} → Exec D A → Exec (Logged D) A
beside m (d, l) = let (r, d') = m d in (r, (d', l))

abbrev pub logging : {D A : Type 0} → Uuid → Exec D A → Exec (Logged D) A
logging id m (d, l) = let (r, d') = m d in (r, (d', l ++ id ∷ []))

abbrev pub logged : {D : Type 0} → DownstreamStore D → DownstreamStore (Logged D)
logged store = record {
  update_available_items = λ u items. beside (store.update_available_items u items);
  get_stations_by_upstream_id = λ u. beside (store.get_stations_by_upstream_id u);
  get_devices = λ id. beside (store.get_devices id);
  get_items = λ id. beside (store.get_items id);
  sync_station = λ u st. beside (store.sync_station u st);
  sync_station_cannot_edit = λ id cameras. beside (store.sync_station_cannot_edit id cameras);
  del_upstream_station = λ u id. logging id (store.del_upstream_station u id);
  update_station_status = λ id status t. beside (store.update_station_status id status t);
  sync_device = λ d. beside (store.sync_device d);
  del_device = λ id name. beside (store.del_device id name);
  sync_item = λ i. beside (store.sync_item i);
  del_item = λ id name. beside (store.del_item id name);
  sync_device_record = λ dr. beside (store.sync_device_record dr);
  latest_status_log_row_id = λ id. beside (store.latest_status_log_row_id id);
  save_item_status_log =
      λ id row name status t. beside (store.save_item_status_log id row name status t);
  update_and_save_status_log =
      λ id row name status t. beside (store.update_and_save_status_log id row name status t);
  update_item_status = λ id name status t. beside (store.update_item_status id name status t);
  get_all_items = beside store.get_all_items;
  items_latest = λ id names. beside (store.items_latest id names);
  ensure_data_table = λ name. beside (store.ensure_data_table name);
  save_data_history = λ id name value t. beside (store.save_data_history id name value t);
}

-- The stations that are not in the set.
abbrev pub absent : List Uuid → List Station → List Uuid
absent set [] = []
absent set (st ∷ rest) = if contains st.id set then absent set rest else st.id ∷ absent set rest

record Same {D : Type 0} (l : List Uuid) (s : Peer (Logged D)) : Type 0 where
  same : s.store.1 ≡ l

module _ {D : Type 0} {l : List Uuid} where
  beside-Same : {A : Type 0} (m : Exec D A) → Keeps (Same l) (on_store (beside m))
  unfolding on_store
  beside-Same m = record { at = λ s h. record { same = h.same } }

  notify-Same : (n : Notice) → Keeps (Same {D = D} l) (notify n)
  unfolding notify
  notify-Same n = record { at = λ s h. record { same = h.same } }

  on_change-Same : (m : Exec D Bool) (n : Notice) → Keeps (Same l) (on_change (beside m) n)
  unfolding on_change
  on_change-Same m n =
      bind-Keeps _ _ (beside-Same m) (λ b. if-Keeps b _ _ (notify-Same n) (pure-Keeps tt))

ruleset same_rules = (keeps_rules, beside-Same, notify-Same, on_change-Same)

module _ {D : Type 0} (codec : Codec) (store : DownstreamStore D) (u : ℕ) {l : List Uuid} where
  sync_devices-Same :
      (ds : List RelayDevice) → Keeps (Same l) (sync_devices codec (logged store) u ds)
  unfolding sync_devices
  sync_devices-Same [] = search same_rules
  sync_devices-Same (d ∷ ds) = bind-Keeps _ _ (on_change-Same _ _) (λ _. sync_devices-Same ds)

  del_devices-Same :
      (set : List String) (ds : List Device)
      → Keeps (Same l) (del_devices codec (logged store) u set ds)
  unfolding del_devices
  del_devices-Same set [] = search same_rules
  del_devices-Same set (d ∷ ds) =
      bind-Keeps _ _
        (if-Keeps _ _ _ (pure-Keeps tt) (
          on_change-Same (store.del_device d.station_id d.name)
            (publish_config "DelDevice" (device_body d))))
        (λ _. del_devices-Same set ds)

  sync_items-Same : (is : List RelayItem) → Keeps (Same l) (sync_items codec (logged store) u is)
  unfolding sync_items
  sync_items-Same [] = search same_rules
  sync_items-Same (i ∷ is) = bind-Keeps _ _ (on_change-Same _ _) (λ _. sync_items-Same is)

  del_items-Same :
      (set : List StationItem) (is : List Item)
      → Keeps (Same l) (del_items codec (logged store) u set is)
  unfolding del_items
  del_items-Same set [] = search same_rules
  del_items-Same set (i ∷ is) =
      bind-Keeps _ _
        (if-Keeps _ _ _ (pure-Keeps tt) (
          on_change-Same (store.del_item i.station_id i.name)
            (publish_config "DelItem" (item_body i))))
        (λ _. del_items-Same set is)

  apply_station-Same :
      (pb : RelayStationFull) (id : Uuid)
      → Keeps (Same l) (apply_station codec (logged store) u pb id)
  unfolding apply_station
  apply_station-Same pb id =
      bind-Keeps _ _
        (attempt-Keeps _ _ (beside-Same (store.get_devices id)) (λ r. pure-Keeps (or_empty r)))
        (λ old_devices.
          bind-Keeps _ _
            (attempt-Keeps _ _ (beside-Same (store.get_items id)) (λ r. pure-Keeps (or_empty r)))
            (λ old_items. bind-Keeps _ _ (on_change-Same _ _) (λ _.
              bind-Keeps _ _ (on_change-Same _ _) (λ _. bind-Keeps _ _ (on_change-Same _ _) (λ _.
                bind-Keeps _ _ (sync_devices-Same pb.devices) (λ _.
                  bind-Keeps _ _ (del_devices-Same _ old_devices) (λ _.
                    bind-Keeps _ _ (sync_items-Same pb.items)
                      (λ _. del_items-Same _ old_items))))))))

  apply_parsed-Same :
      (o : Option Uuid) (pb : RelayStationFull)
      → Keeps (Same l) (apply_parsed codec (logged store) u o pb)
  unfolding apply_parsed
  apply_parsed-Same none pb = pure-Keeps tt
  apply_parsed-Same (some id) pb = apply_station-Same pb id

  apply_stations-Same :
      (pbs : List RelayStationFull) → Keeps (Same l) (apply_stations codec (logged store) u pbs)
  unfolding apply_stations
  apply_stations-Same [] = pure-Keeps tt
  apply_stations-Same (pb ∷ rest) =
      bind-Keeps _ _ (apply_parsed-Same _ pb) (λ _. apply_stations-Same rest)

  sync_device_records-Same :
      (drs : List RelayDeviceRecord)
      → Keeps (Same l) (sync_device_records codec (logged store) u drs)
  unfolding sync_device_records
  sync_device_records-Same [] = pure-Keeps tt
  sync_device_records-Same (dr ∷ rest) =
      bind-Keeps _ _ (on_change-Same _ _) (λ _. sync_device_records-Same rest)

module _ {D : Type 0} (m n : Exec (Peer (Logged D)) Unit) (more : List Uuid)
    (s : Peer (Logged D)) where
  same_then :
      ((s' : Peer (Logged D)) → (m s').1.store.1 ≡ s'.store.1)
      → ((s' : Peer (Logged D)) → (n s').0 ≡ ok tt → (n s').1.store.1 ≡ s'.store.1 ++ more)
      → ((m >> n) s).0 ≡ ok tt
      → ((m >> n) s).1.store.1 ≡ s.store.1 ++ more
  unfolding ◌>>=◌
  same_then same next done = elim (Result-cases (m s).0) [
    | inl (x, e) ↦ absurd (cc (rw e at done))
    | inr (a, e) ↦ rw e (next (m s).1 (rw e at done) ∙ ap (λ l. l ++ more) (same s))
  ]

  then_same :
      ((m s).0 ≡ ok tt → (m s).1.store.1 ≡ s.store.1 ++ more)
      → ((s' : Peer (Logged D)) → (n s').1.store.1 ≡ s'.store.1)
      → ((m >> n) s).0 ≡ ok tt
      → ((m >> n) s).1.store.1 ≡ s.store.1 ++ more
  unfolding ◌>>=◌
  then_same grew same done = elim (Result-cases (m s).0) [
    | inl (x, e) ↦ absurd (cc (rw e at done))
    | inr (tt, e) ↦ rw e (same (m s).1 ∙ grew e)
  ]

module _ {D : Type 0} (codec : Codec) (store : DownstreamStore D) (u : ℕ) where
  -- Two actions in a row, the first of which adds one entry.
  then_log :
      (m n : Exec (Peer (Logged D)) Unit) (more : List Uuid) (id : Uuid) (s : Peer (Logged D))
      → (m s).1.store.1 ≡ s.store.1 ++ id ∷ []
      → ((s' : Peer (Logged D)) → (n s').0 ≡ ok tt → (n s').1.store.1 ≡ s'.store.1 ++ more)
      → ((m >> n) s).0 ≡ ok tt
      → ((m >> n) s).1.store.1 ≡ s.store.1 ++ id ∷ more
  unfolding ◌>>=◌
  then_log m n more id s grew next done = elim (Result-cases (m s).0) [
    | inl (x, e) ↦ absurd (cc (rw e at done))
    | inr (a, e) ↦ rw e (
        next (m s).1 (rw e at done)
        ∙ ap (λ l. l ++ more) grew
        ∙ append_assoc s.store.1 (id ∷ []) more)
  ]

  -- One deletion is logged whether or not a row changed.
  del_station-log :
      (id : Uuid) (s : Peer (Logged D))
      → (on_change
          ((logged store).del_upstream_station u id)
          (publish_config "DelUpstreamStation" (station_id_body id))
          s).1.store.1
        ≡ s.store.1 ++ id ∷ []
  unfolding on_change on_store ◌>>=◌ notify
  del_station-log id s = elim (Result-cases (store.del_upstream_station u id s.store.0).0) [
    | inl (x, e) ↦ rw e refl
    | inr (true, e) ↦ rw e refl
    | inr (false, e) ↦ rw e refl
  ]

  del_stations-log :
      (set : List Uuid) (olds : List Station) (s : Peer (Logged D))
      → (del_stations codec (logged store) u set olds s).0 ≡ ok tt
      → (del_stations codec (logged store) u set olds s).1.store.1 ≡ s.store.1 ++ absent set olds
  unfolding del_stations ◌>>=◌ pure
  del_stations-log set [] s done = sym (append-nil s.store.1)
  del_stations-log set (st ∷ rest) s done = elim (Bool-cases (contains st.id set)) [
    | inl e ↦ rw e (del_stations-log set rest s (rw e at done))
    | inr e ↦ rw e (
        then_log
          (on_change ((logged store).del_upstream_station u st.id)
            (publish_config "DelUpstreamStation" (station_id_body st.id)))
          (del_stations codec (logged store) u set rest) (absent set rest) st.id s
          (del_station-log st.id s) (λ s' ends. del_stations-log set rest s' ends) (rw e at done))
  ]

  -- When a full configuration is applied without an error, the stations that it had the database delete
  -- are, one after another, those that the database listed of this upstream before and that are not in
  -- the batch: no station of the batch is deleted, and no other is left out.
  pub apply_full_config-absent :
      (batch : RelayConfigBatch) (s : Peer (Logged D)) (olds : List Station)
      → (store.get_stations_by_upstream_id u s.store.0).0 ≡ ok olds
      → (apply_full_config codec (logged store) u batch s).0 ≡ ok tt
      → (apply_full_config codec (logged store) u batch s).1.store.1
        ≡ s.store.1 ++ absent (new_station_set codec batch.stations) olds
  unfolding apply_full_config ◌>>=◌ on_store
  apply_full_config-absent batch s olds listed done =
      let set = new_station_set codec batch.stations in
      rw listed (
        same_then (apply_stations codec (logged store) u batch.stations)
          (do
            del_stations codec (logged store) u set olds
            sync_device_records codec (logged store) u batch.device_records)
          (absent set olds)
          (record s { store = ((store.get_stations_by_upstream_id u s.store.0).1, s.store.1) })
          (λ s'.
            ((apply_stations-Same codec store u batch.stations).at s'
              (record { same = refl })).same)
          (λ s' ends.
            then_same (del_stations codec (logged store) u set olds)
              (sync_device_records codec (logged store) u batch.device_records) (absent set olds) s'
              (del_stations-log set olds s')
              (λ s''.
                ((sync_device_records-Same codec store u batch.device_records).at s''
                  (record { same = refl })).same)
              ends)
          (rw listed at done))
