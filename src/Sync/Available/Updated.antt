-- ===== src/Sync/Available/Updated.antt =====
-- What `UpdateAvailableItems` of tide_server/db/item.go makes of the column.
use tidegauge_backend.Prelude.{
  ℕ, ◌≡◌, refl, sym, ap, ◌⊎◌, inl, inr, true, false, not, ◌&&◌, ◌||◌, List, [], ◌∷◌, arith, ◌==◌,
  nat_keys, nat_eq_iff, contains, Distinct, if◌then◌else◌, Bool-cases,
}
use tidegauge_backend.Types.{Uuid, Error, UuidStringsMap, StationItem, station_item_keys}
use tidegauge_backend.Exec.{Exec, Result, ok, err, pure}
use tidegauge_backend.Exec.After.{After, bind-After}
use tidegauge_backend.Relay.Convert.{uuid_strings_map_to_topics}
use tidegauge_backend.Sync.Available.{
  Availability, statement, committed, transaction, has_station, old_items, update_available_items,
}
use tidegauge_backend.Sync.Available.Rows.{Rows, holds, available_by, present, statement-After}
use tidegauge_backend.Sync.Available.Loops.{
  Added, Removed, OldHas, weaken-After, remove_old-Removed, add_new-Added,
}

old_items_lem :
    (u : ℕ) (stations : List (ℕ × Uuid)) (m : Rows) (j : StationItem)
    → Distinct m
    → contains j (old_items u stations m)
      ≡ (available_by u j m && has_station u j.station_id stations)
unfolding old_items
old_items_lem u stations [] j d = refl
old_items_lem u stations ((si, ups) ∷ m) j d =
    let ih : contains j (old_items u stations m)
        ≡ (available_by u j m && has_station u j.station_id stations) =
      old_items_lem u stations m j d.1 in
    elim (Bool-cases (si == j)) [
      | inr other ↦
          ground (arith, ih, other, station_item_keys.beq_iff si j, station_item_keys.beq_iff j si)
      | inl same ↦
          let e : si ≡ j = (station_item_keys.beq_iff si j).0 same in
          let out : available_by u j m ≡ false = ap (holds u) (rw e at d.0) in
          rw e (ground (arith, ih, out, station_item_keys.beq_iff j j))
    ]

-- What the update makes of the column of an item of a station of the upstream.
abbrev pub Updated : ℕ → List StationItem → Availability → Rows → Type 0
Updated u fresh s m =
    (j : StationItem) (v : ℕ)
    → present j s.items ≡ true
    → has_station u j.station_id s.upstream_stations ≡ true
    → available_by v j m ≡ (if v == u then contains j fresh else available_by v j s.items)

-- What holds of the rows after the action holds after the transaction.
transaction-After :
    {A : Type 0} (Q : A → Rows → Type 0) (run : Exec Availability A) (s : Availability)
    → ((s' : Availability)
        → s'.items ≡ s.items
        → s'.upstream_stations ≡ s.upstream_stations
        → After (λ a t. Q a t.items) (run s'))
    → After (λ a t. Q a t.items) (transaction run s)
unfolding transaction pure
transaction-After Q run s h =
    commits (λ a t. Q a t.items) _
      (bind-After
        (λ (b : Unit {0}) s1. (s1.items ≡ s.items) × (s1.upstream_stations ≡ s.upstream_stations))
        (λ a t. Q a t.items) (statement (pure tt)) _ s
        (statement-After
          (λ (b : Unit {0}) s1. (s1.items ≡ s.items) × (s1.upstream_stations ≡ s.upstream_stations))
          _ s (λ fs. (refl, refl)))
        (λ b s1 h1.
          bind-After (λ a t. Q a t.items) (λ a t. Q a t.items) run _ s1 (h s1 h1.0 h1.1)
            (λ a s2 h2.
              bind-After (λ (b : Unit {0}) t. Q a t.items) (λ a t. Q a t.items)
                (statement (pure tt)) _ s2
                (statement-After (λ (b : Unit {0}) t. Q a t.items) _ s2 (λ fs. h2))
                (λ b s3 h3. h3))))
  where
    commits :
        {B : Type 0} (P : B → Availability → Type 0) (r : Result B × Availability)
        → After P r
        → After P (committed s r)
    commits P (ok a, t) q = unfold committed in q
    commits P (err e, t) q = unfold committed in tt

-- The set of the items that the upstream makes available, as it is read.
abbrev Old : ℕ → Availability → List StationItem → Availability → Type 0
Old u s old s' = (s'.items ≡ s.items) × (old ≡ old_items u s.upstream_stations s.items)

old_items-OldHas :
    (u : ℕ) (stations : List (ℕ × Uuid)) (m : Rows)
    → Distinct m
    → OldHas u (old_items u stations m) m
old_items-OldHas u stations m d j c = ground (arith, old_items_lem u stations m j d, c)

after_both_loops :
    (u : ℕ) (fresh : List StationItem) (s : Availability) (left : List StationItem × ℕ)
    (m1 m2 : Rows)
    → Distinct s.items
    → ((j : StationItem) (v : ℕ)
        → available_by v j m1
          ≡ (available_by v j s.items || (v == u && present j s.items && contains j fresh)))
    → ((j : StationItem)
        → contains j left.0
          ≡ (contains j (old_items u s.upstream_stations s.items) && not (contains j fresh)))
    → ((j : StationItem) (v : ℕ)
        → available_by v j m2 ≡ (available_by v j m1 && not (v == u && contains j left.0)))
    → Updated u fresh s m2
after_both_loops u fresh s left m1 m2 d added kept removed j v there has =
    elim (Bool-cases (v == u)) [
      | inr other ↦ ground (arith, removed j v, added j v, other)
      | inl same ↦
          let e : v ≡ u = (nat_eq_iff v u).0 same in
          rw e (
            ground (
              arith,
              removed j u,
              added j u,
              kept j,
              old_items_lem u s.upstream_stations s.items j d,
              there,
              has,
              nat_eq_iff u u,
            ))
    ]

update_available_items-After :
    (u : ℕ) (permitted : UuidStringsMap) (s : Availability)
    → Distinct s.items
    → After
        (λ (n : ℕ) t. Updated u (uuid_strings_map_to_topics permitted) s t.items)
        (update_available_items u permitted s)
unfolding update_available_items
update_available_items-After u permitted s d =
    let fresh : List StationItem = uuid_strings_map_to_topics permitted in
    let Goal : ℕ → Availability → Type 0 = λ n t. Updated u fresh s t.items in
    transaction-After (λ (n : ℕ) m. Updated u fresh s m) _ s
      (λ s' same stations. bind-After (Old u s) Goal _ _ s' (read s' same stations) (λ old s1 h1.
        bind-After (Added u old fresh s1.items) Goal _ _ s1
          (add_new-Added u old fresh 0 s1
            (rw (h1.0, h1.1) (old_items-OldHas u s.upstream_stations s.items d)))
          (λ left s2 h2.
            weaken-After (Removed u left.0 s2.items) Goal _ (remove_old-Removed u left.0 left.1 s2)
              (λ n s3 h3.
                after_both_loops u fresh s left s2.items s3.items d
                  (λ j v. rw (sym (h1.0)) ((h2 j).1 v)) (λ j. rw (sym (h1.1)) ((h2 j).2)) h3))))
  where
    read :
        (s' : Availability)
        → s'.items ≡ s.items
        → s'.upstream_stations ≡ s.upstream_stations
        → After (Old u s) (statement (λ a. (ok (old_items u a.upstream_stations a.items), a)) s')
    read s' same stations = statement-After (Old u s) _ s' (λ fs. (same, rw (same, stations) refl))

-- All or nothing.
abbrev pub Outcome : (Rows → Type 0) → Rows → Result ℕ × Availability → Type 0
Outcome Q before r =
    ((n : ℕ) × ((r.0 ≡ ok n) × Q r.1.items))
    ⊎ ((e : Error) × ((r.0 ≡ err e) × (r.1.items ≡ before)))

-- UpdateAvailableItems, where the rows of the table are distinct, is all or nothing: either it works,
-- and then, among the rows of the stations of the upstream, the upstream makes available exactly the
-- permitted items, while what every other upstream makes available of them is as before; or it reports
-- an error, and the table is as before.
pub update_available_items-available :
    (u : ℕ) (permitted : UuidStringsMap) (s : Availability)
    → Distinct s.items
    → Outcome
        (Updated u (uuid_strings_map_to_topics permitted) s)
        s.items
        (update_available_items u permitted s)
unfolding update_available_items transaction
update_available_items-available u permitted s d =
    settle _ (update_available_items-After u permitted s d)
  where
    settle :
        (r : Result ℕ × Availability)
        → After
            (λ (n : ℕ) t. Updated u (uuid_strings_map_to_topics permitted) s t.items)
            (committed s r)
        → Outcome (Updated u (uuid_strings_map_to_topics permitted) s) s.items (committed s r)
    settle (ok n, t) h = unfold committed in inl (n, (refl, h))
    settle (err e, t) h = unfold committed in inr (e, (refl, refl))
