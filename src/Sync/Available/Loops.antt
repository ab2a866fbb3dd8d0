-- ===== src/Sync/Available/Loops.antt =====
-- What the two loops of `UpdateAvailableItems` of tide_server/db/item.go change.
use tidegauge_backend.Prelude.{
  ℕ, suc, ◌≡◌, refl, ◌∙◌, inl, inr, true, false, not, ◌&&◌, ◌||◌, List, [], ◌∷◌, arith, ◌==◌,
  nat_keys, nat_eq_iff, contains, Bool-cases,
}
use tidegauge_backend.Types.{StationItem, station_item_keys}
use tidegauge_backend.Exec.{Result, ok, err, pure}
use tidegauge_backend.Exec.After.{After, bind-After}
use tidegauge_backend.Sync.Available.{
  Availability, without, update_row, with_upstream, add_available, remove_available, add_new,
  remove_old,
}
use tidegauge_backend.Sync.Available.Rows.{
  Rows, available_by, present, present-update_row, available_by-added, available_by-removed,
  statement-After, contains-without,
}

-- What the loops change, seen at each item.
abbrev pub Added :
    ℕ → List StationItem → List StationItem → Rows → List StationItem × ℕ → Availability → Type 0
Added u old fresh m left s' =
    (j : StationItem)
    → (present j s'.items ≡ present j m)
      × ((v : ℕ)
          → available_by v j s'.items
            ≡ (available_by v j m || (v == u && present j m && contains j fresh)))
      × (contains j left.0 ≡ (contains j old && not (contains j fresh)))

abbrev pub Removed : ℕ → List StationItem → Rows → ℕ → Availability → Type 0
Removed u old m n s' =
    (j : StationItem) (v : ℕ)
    → available_by v j s'.items ≡ (available_by v j m && not (v == u && contains j old))

-- Every old item is available by the upstream.
abbrev pub OldHas : ℕ → List StationItem → Rows → Type 0
OldHas u old m = (j : StationItem) → contains j old ≡ true → available_by u j m ≡ true

pub weaken-After :
    {A : Type 0} (Q R : A → Availability → Type 0) (r : Result A × Availability)
    → After Q r
    → ((a : A) (s : Availability) → Q a s → R a s)
    → After R r
weaken-After Q R (ok a, s) h f = f a s h
weaken-After Q R (err e, s) h f = tt

pub remove_old-Removed :
    (u : ℕ) (old : List StationItem) (n : ℕ) (s : Availability)
    → After (Removed u old s.items) (remove_old u old n s)
unfolding remove_old pure
remove_old-Removed u [] n s = λ j v. ground arith
remove_old-Removed u (k ∷ old) n s =
    bind-After (λ (t : Unit {0}) s1. s1.items ≡ update_row k (without u) s.items)
      (Removed u (k ∷ old) s.items) (remove_available u k) _ s (removed s)
      (λ t s1 h1.
        weaken-After (Removed u old s1.items) (Removed u (k ∷ old) s.items) _
          (remove_old-Removed u old (suc n) s1)
          (λ m s2 h2 j v.
            let g : available_by v j s1.items
                ≡ (available_by v j s.items && not (v == u && k == j)) =
              rw h1 (available_by-removed u v k j s.items) in
            ground
              (arith, h2 j v, g, station_item_keys.beq_iff k j, station_item_keys.beq_iff j k)))
  where
    removed :
        (a : Availability)
        → After
            (λ (t : Unit {0}) s1. s1.items ≡ update_row k (without u) a.items)
            (remove_available u k a)
    removed a =
        unfold remove_available in
        statement-After (λ (t : Unit {0}) s1. s1.items ≡ update_row k (without u) a.items) _ a
          (λ fs. refl)

-- An old item is available by the upstream, and one that is not old is another than the old ones.
old_view :
    (u v : ℕ) (k j : StationItem) (old : List StationItem) (m : Rows)
    → OldHas u old m
    → contains k old ≡ true
    → (not (v == u && j == k) || available_by v j m) ≡ true
old_view u v k j old m h there = elim (Bool-cases (v == u && j == k)) [
  | inr other ↦ rw other refl
  | inl same ↦
      let ev : v ≡ u = (nat_eq_iff v u).0 (ground arith) in
      let ej : j ≡ k = (station_item_keys.beq_iff j k).0 (ground arith) in
      rw same (rw (ev, ej) (h k there))
]

not_old :
    (k j : StationItem) (old : List StationItem)
    → contains k old ≡ false
    → (not (j == k) || not (contains j old)) ≡ true
not_old k j old new = elim (Bool-cases (j == k)) [
  | inr other ↦ rw other refl
  | inl same ↦ rw same (rw ((station_item_keys.beq_iff j k).0 same) (rw new refl))
]

pub add_new-Added :
    (u : ℕ) (old fresh : List StationItem) (n : ℕ) (s : Availability)
    → OldHas u old s.items
    → After (Added u old fresh s.items) (add_new u old fresh n s)
unfolding add_new pure
add_new-Added u old [] n s h = λ j. (refl, (λ v. ground arith), ground arith)
add_new-Added u old (k ∷ fresh) n s h = elim (Bool-cases (contains k old)) [
  | inl there ↦ rw there (
      weaken-After (Added u (without k old) fresh s.items) (Added u old (k ∷ fresh) s.items) _
        (add_new-Added u (without k old) fresh n s
          (λ j c. h j (ground (arith, contains-without k j old, c))))
        (λ left s1 h1 j. (
          (h1 j).0,
          λ v. ground (arith, (h1 j).1 v, old_view u v k j old s.items h there),
          ground (
            arith,
            (h1 j).2,
            contains-without k j old,
            station_item_keys.beq_iff k j,
            station_item_keys.beq_iff j k,
          ),
        )))
  | inr new ↦ rw new (
      bind-After (λ (t : Unit {0}) s1. s1.items ≡ update_row k (with_upstream u) s.items)
        (Added u old (k ∷ fresh) s.items) (add_available u k) _ s (added s)
        (λ t s1 h1.
          weaken-After (Added u old fresh s1.items) (Added u old (k ∷ fresh) s.items) _
            (add_new-Added u old fresh (suc n) s1 (still s1 h1))
            (λ left s2 h2 j. (
              (h2 j).0 ∙ there_after s1 h1 j,
              λ v. view2 s1 h1 v j (s2.items) ((h2 j).1 v),
              ground (arith, (h2 j).2, not_old k j old new),
            ))))
]
  where
    added :
        (a : Availability)
        → After
            (λ (t : Unit {0}) s1. s1.items ≡ update_row k (with_upstream u) a.items)
            (add_available u k a)
    added a =
        unfold add_available in
        statement-After (λ (t : Unit {0}) s1. s1.items ≡ update_row k (with_upstream u) a.items) _ a
          (λ fs. refl)

    view_after :
        (s1 : Availability)
        → s1.items ≡ update_row k (with_upstream u) s.items
        → (v : ℕ) (j : StationItem)
        → available_by v j s1.items
          ≡ (available_by v j s.items || (v == u && k == j && present j s.items))
    view_after s1 h1 v j = rw h1 (available_by-added u v k j s.items)

    there_after :
        (s1 : Availability)
        → s1.items ≡ update_row k (with_upstream u) s.items
        → (j : StationItem) → present j s1.items ≡ present j s.items
    there_after s1 h1 j = rw h1 (present-update_row k j (with_upstream u) s.items)

    still :
        (s1 : Availability)
        → s1.items ≡ update_row k (with_upstream u) s.items
        → OldHas u old s1.items
    still s1 h1 j c = ground (arith, view_after s1 h1 u j, h j c)

    view2 :
        (s1 : Availability)
        → s1.items ≡ update_row k (with_upstream u) s.items
        → (v : ℕ) (j : StationItem) (m2 : Rows)
        → available_by v j m2
          ≡ (available_by v j s1.items || (v == u && present j s1.items && contains j fresh))
        → available_by v j m2
          ≡ (available_by v j s.items || (v == u && present j s.items && contains j (k ∷ fresh)))
    view2 s1 h1 v j m2 e = ground (
      arith,
      e,
      view_after s1 h1 v j,
      there_after s1 h1 j,
      station_item_keys.beq_iff k j,
      station_item_keys.beq_iff j k,
    )
