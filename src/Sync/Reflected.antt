-- ===== src/Sync/Reflected.antt =====
-- What `SyncStationInfo` of tide_server/controller/station_sync_func.go leaves in the table of items.
use tidegauge_backend.Prelude.{
  String, ◌≡◌, refl, ◌∙◌, ap, ◌⊎◌, inl, inr, Bool, true, false, Option, none, some, List, [], ◌∷◌,
  arith, ◌==◌, string_keys, nat_keys, lookup, insert, ltb, lookup-insert, insert-Distinct, Distinct,
  if◌then◌else◌, Bool-cases, Option-cases, ==_refl,
}
use mathlib.Core.Path.{subst}
use tidegauge_backend.Types.{Uuid, StationInfo}
use tidegauge_backend.Exec.After.{After, bind-After}
use tidegauge_backend.Exec.{Result, ok, err, pure}
use tidegauge_backend.Sync.{
  Named, named_keys, named_eq_iff, ItemInfo, Config, broadcast_add_items, of_station, item_rows,
  get_devices, get_items, sync_station_cannot_edit, cameras_written, call,
}
use tidegauge_backend.Sync.StationInfo.{
  ItemInfos, by_name, put_items, new_items, named, is_none, cameras_call, sync_cameras,
  sync_station_info,
}
use tidegauge_backend.Sync.Edited.{
  statement-After, Differs, row, Same, Fewer, add_devices-Same, del_devices-Fewer, Pruned,
  del_items-Pruned, Written, edit_items-Written,
}

put_items-Distinct :
    (device_name : String) (items : List (String × String)) (m : ItemInfos)
    → Distinct m
    → Distinct (put_items device_name items m)
unfolding put_items
put_items-Distinct device_name [] m d = d
put_items-Distinct device_name ((t, name) ∷ rest) m d =
    put_items-Distinct device_name rest _ (insert-Distinct name _ m d)

new_items-Distinct :
    (ds : List (String × List (String × String))) (m : ItemInfos)
    → Distinct m
    → Distinct (new_items ds m)
unfolding new_items
new_items-Distinct [] m d = d
new_items-Distinct ((name, items) ∷ rest) m d =
    new_items-Distinct rest (put_items name items m) (put_items-Distinct name items m d)

-- An item that is entered in `oldItems` stays there.
by_name-kept :
    (n : String) (rows m : ItemInfos)
    → is_none (lookup n m) ≡ false
    → is_none (lookup n (by_name rows m)) ≡ false
unfolding by_name
by_name-kept n [] m h = h
by_name-kept n ((name, i) ∷ rows) m h =
    by_name-kept n rows (insert name i m) (ap is_none (lookup-insert name n i m) ∙ kept (name == n))
  where
    kept : (b : Bool) → is_none (if b then some i else lookup n m) ≡ false
    kept true = refl
    kept false = h

module _ (station_id : Uuid) where
  -- An item of the station that has a row is among `oldItems`.
  item_rows-found :
      (n : String) (items : List (Named × ItemInfo)) (m : ItemInfos)
      → (lookup (named station_id n) items ≡ none)
        ⊎ (is_none (lookup n (by_name (item_rows station_id items) m)) ≡ false)
  unfolding item_rows by_name
  item_rows-found n [] m = inl refl
  item_rows-found n ((k, i) ∷ items) m = elim (Bool-cases (k == named station_id n)) [
    | inl same ↦
        let e : k ≡ named station_id n = (named_eq_iff k (named station_id n)).0 same in
        let own : of_station station_id k ≡ true =
          rw e (ground (arith, nat_keys.beq_iff station_id station_id)) in
        let at : k.name ≡ n = ap (λ (j : Named). j.name) e in
        inr (
          rw own (
            by_name-kept n (item_rows station_id items) (insert k.name i m)
              (rw at (ap is_none (lookup-insert n n i m) ∙ rw (==_refl n) refl))))
    | inr other ↦ rw other (elim (Bool-cases (of_station station_id k)) [
      | inl own ↦ rw own (item_rows-found n items (insert k.name i m))
      | inr foreign ↦ rw foreign (item_rows-found n items m)
    ])
  ]

  cameras_written-Same :
      (cameras : String) (o : Option String) (c c0 : Config)
      → c.items ≡ c0.items
      → After {A = Bool} (Same station_id c0) (cameras_written station_id cameras o c)
  unfolding cameras_written
  cameras_written-Same cameras none c c0 h = h
  cameras_written-Same cameras (some before) c c0 h = elim (Bool-cases (before == cameras)) [
    | inl same ↦ rw same h
    | inr other ↦ rw other h
  ]

  sync_cameras-Same :
      (r : Result String) (c c0 : Config)
      → c.items ≡ c0.items
      → After {A = Unit} (Same station_id c0) (sync_cameras station_id r c)
  unfolding sync_cameras sync_station_cannot_edit
  sync_cameras-Same (err e) c c0 h = tt
  sync_cameras-Same (ok cameras) c c0 h =
      bind-After (Same station_id c0) (Same station_id c0) _ _ c
        (statement-After (Same station_id c0) _ c (λ fs.
          cameras_written-Same cameras (lookup station_id c.cameras) (record c { faults = fs }) c0
            h))
        (λ b c1 h1. published b c1 h1)
    where
      published :
          (b : Bool) (c1 : Config)
          → c1.items ≡ c0.items
          → After {A = Unit} (Same station_id c0) (cameras_call station_id cameras b c1)
      published false c1 h1 = unfold cameras_call pure in h1
      published true c1 h1 = unfold cameras_call call in h1

  get_devices-Same : (c : Config) → After (Same station_id c) (get_devices station_id c)
  unfolding get_devices
  get_devices-Same c = statement-After (Same station_id c) _ c (λ fs. refl)

  -- The rows that are read are those of the table, which stays as it is.
  abbrev Read : Config → ItemInfos → Config → Type 0
  Read c rows c' = (c'.items ≡ c.items) × (rows ≡ item_rows station_id c.items)

  get_items-Read : (c c0 : Config) → c.items ≡ c0.items → After (Read c0) (get_items station_id c)
  unfolding get_items
  get_items-Read c c0 h = statement-After (Read c0) _ c (λ fs. (h, ap (item_rows station_id) h))

  -- The table of items says of the station what the list says.
  abbrev Reflects : {A : Type 0} → ItemInfos → A → Config → Type 0
  Reflects fresh a c = (n : String) → row station_id c n ≡ lookup n fresh

  edited-Reflects :
      (fresh : ItemInfos) (c0 c1 c2 c3 : Config)
      → Fewer station_id c0 tt c1
      → Pruned station_id fresh (by_name (item_rows station_id c0.items) []) c1 tt c2
      → Written station_id fresh c2 tt c3
      → Reflects fresh tt c3
  edited-Reflects fresh c0 c1 c2 c3 fewer pruned written n = elim (Option-cases (lookup n fresh)) [
    | inr (i, new) ↦ written n ∙ rw new refl
    | inl out ↦
        let gone : row station_id c2 n ≡ none = pruned n out (elim (item_rows-found n c0.items []) [
          | inl absent ↦ inl (fewer n absent)
          | inr found ↦ inr found
        ]) in
        written n ∙ rw out gone
  ]

  sync_station_info-After :
      (write_cameras : List String → Result String) (info : StationInfo) (c : Config)
      → Differs (new_items info.devices [])
      → After {A = Unit}
          (Reflects (new_items info.devices []))
          (sync_station_info station_id write_cameras info c)
  unfolding sync_station_info pure call
  sync_station_info-After write_cameras info c differs =
      let fresh : ItemInfos = new_items info.devices [] in
      bind-After (Same station_id c) (Reflects fresh) _ _ c (get_devices-Same c) (λ names c1 h1.
        bind-After (Read c) (Reflects fresh) _ _ c1 (get_items-Read c1 c h1) (λ rows c2 h2.
          bind-After (Same station_id c) (Reflects fresh) _ _ c2
            (add_devices-Same station_id info.devices _ c2 c h2.0)
            (λ old c3 h3.
              bind-After (Fewer station_id c) (Reflects fresh) _ _ c3
                (del_devices-Fewer station_id old c3 c (λ n out. rw h3 out))
                (λ u c4 h4.
                  bind-After (Pruned station_id fresh (by_name rows []) c4) (Reflects fresh) _ _ c4
                    (del_items-Pruned station_id fresh (by_name rows []) c4)
                    (λ v c5 h5.
                      bind-After (Written station_id fresh c5) (Reflects fresh) _ _ c5
                        (edit_items-Written station_id (by_name rows []) fresh c5
                          (new_items-Distinct info.devices [] tt) differs)
                        (λ k c6 h6.
                          let kept : Reflects fresh tt c6 =
                            edited-Reflects fresh c c4 c5 c6 h4
                              (subst (λ r. Pruned station_id fresh (by_name r []) c4 tt c5) h2.1 h5)
                              h6 in
                          bind-After (Reflects fresh) (Reflects fresh) _ _ c6
                            (told (ltb 0 k) c6 kept)
                            (λ w c7 h7.
                              still c7 h7 _
                                (sync_cameras-Same (write_cameras info.cameras) c7 c7 refl))))))))
    where
      told :
          (b : Bool) (c6 : Config)
          → Reflects (new_items info.devices []) tt c6
          → After {A = Unit}
              (Reflects (new_items info.devices []))
              ((if b then call broadcast_add_items else pure tt) c6)
      told true c6 kept = kept
      told false c6 kept = kept

      still :
          (c7 : Config)
          → Reflects (new_items info.devices []) tt c7
          → (r : Result (Unit {0}) × Config) → After {A = Unit} (Same station_id c7) r
          → After {A = Unit} (Reflects (new_items info.devices [])) r
      still c7 h7 (ok u, c') e = λ n. rw e (h7 n)
      still c7 h7 (err x, c') e = tt

  -- Where SyncStationInfo works to its end, the rows of the station in the table of items are exactly
  -- the items that the station names, each with its type and device, provided that none of them is
  -- named as its device is. The items of a device that was deleted on the way, which the database
  -- deletes with it, are there again.
  pub sync_station_info-reflected :
      (write_cameras : List String → Result String) (info : StationInfo) (c : Config)
      → Differs (new_items info.devices [])
      → (sync_station_info station_id write_cameras info c).0 ≡ ok tt
      → (n : String)
      → row station_id (sync_station_info station_id write_cameras info c).1 n
        ≡ lookup n (new_items info.devices [])
  sync_station_info-reflected write_cameras info c differs worked =
      given (sync_station_info station_id write_cameras info c) worked
        (sync_station_info-After write_cameras info c differs)
    where
      given :
          (r : Result (Unit {0}) × Config)
          → r.0 ≡ ok tt
          → After {A = Unit} (Reflects (new_items info.devices [])) r
          → Reflects (new_items info.devices []) tt r.1
      given (ok u, c') e h = h
      given (err x, c') e h = absurd (cc e)
