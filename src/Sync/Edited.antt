-- ===== src/Sync/Edited.antt =====
-- What the steps of `SyncStationInfo` in tide_server/controller/station_sync_func.go make of the rows of
-- a station in the table of items.
use tidegauge_backend.Prelude.{
  ℕ, String, ◌≡◌, refl, ◌∙◌, ap, ◌⊎◌, inl, inr, Bool, true, false, Option, none, some, List, [],
  ◌∷◌, arith, ◌==◌, string_keys, nat_keys, lookup, insert, delete, lookup-insert, lookup-delete,
  Distinct, if◌then◌else◌, Bool-cases, contains, ==_refl,
}
use tidegauge_backend.Types.{Uuid, Error}
use tidegauge_backend.Exec.After.{After, bind-After}
use tidegauge_backend.Exec.{Exec, Result, ok, err, pure, ◌>>=◌}
use tidegauge_backend.Db.{contains_illegal_character}
use tidegauge_backend.Sync.{
  Named, named_keys, ItemInfo, Config, HubCall, statement, fault_of, edit_device, device_added,
  concerns, items_left, del_device, del_item, edit_item, item_written, call,
}
use tidegauge_backend.Sync.StationInfo.{
  OldDevices, ItemInfos, named, changed, is_none, add_or_mark, add_devices, del_devices, del_items,
  edit_items,
}

pub statement-After :
    {A : Type 0} (Q : A → Config → Type 0) (run : Exec Config A) (c : Config)
    → ((fs : List (Option Error)) → After Q (run (record c { faults = fs })))
    → After Q (statement run c)
unfolding statement
statement-After Q run c h = split c.faults
  where
    split : (fs : List (Option Error)) → After Q (fault_of fs run c)
    split [] = unfold fault_of in h c.faults
    split (none ∷ rest) = unfold fault_of in h rest
    split (some e ∷ rest) = unfold fault_of in tt

-- No item is named as its device is.
abbrev pub Differs : ItemInfos → Type 0
Differs list = (n : String) → (i : ItemInfo) → lookup n list ≡ some i → (n == i.device_name) ≡ false

module _ (station_id : Uuid) where
  -- The row of an item of the station.
  abbrev pub row : Config → String → Option ItemInfo
  row c name = lookup (named station_id name) c.items

  -- The items are what they were, or only fewer.
  abbrev pub Same : {A : Type 0} → Config → A → Config → Type 0
  Same c a c' = c'.items ≡ c.items

  abbrev pub Fewer : {A : Type 0} → Config → A → Config → Type 0
  Fewer c a c' = (n : String) → row c n ≡ none → row c' n ≡ none

  edit_device-Same : (k : Named) (c : Config) → After (Same c) (edit_device k c)
  unfolding edit_device device_added
  edit_device-Same k c = statement-After (Same c) _ c (λ fs.
      elim (Bool-cases (contains k c.devices)) [
        | inl there ↦ rw there refl
        | inr absent ↦ rw absent refl
      ])

  add_or_mark-Same :
      (name : String) (old : OldDevices) (o : Option Bool) (c : Config)
      → After (Same c) (add_or_mark station_id name old o c)
  unfolding add_or_mark pure call
  add_or_mark-Same name old (some b) c = refl
  add_or_mark-Same name old none c =
      bind-After (Same c) (Same c) _ _ c (edit_device-Same (named station_id name) c)
        (λ u c1 h1. bind-After (Same c) (Same c) _ _ c1 h1 (λ v c2 h2. h2))

  pub add_devices-Same :
      (ds : List (String × List (String × String))) (old : OldDevices) (c c0 : Config)
      → c.items ≡ c0.items
      → After (Same c0) (add_devices station_id ds old c)
  unfolding add_devices pure
  add_devices-Same [] old c c0 e = e
  add_devices-Same ((name, items) ∷ rest) old c c0 e =
      bind-After (Same c) (Same c0) _ _ c (add_or_mark-Same name old (lookup name old) c)
        (λ old' c1 h1. add_devices-Same rest old' c1 c0 (h1 ∙ e))

  items_left-none :
      (d k : Named) (m : List (Named × ItemInfo))
      → lookup k m ≡ none
      → lookup k (items_left d m) ≡ none
  unfolding items_left
  items_left-none d k [] h = refl
  items_left-none d k ((j, i) ∷ m) h =
      elim (Bool-cases (concerns d (record { station_id = j.station_id; name = i.device_name }))) [
        | inl gone ↦ elim (Bool-cases (j == k)) [
          | inl same ↦ absurd (cc (rw same at h))
          | inr other ↦ rw gone (items_left-none d k m (rw other at h))
        ]
        | inr kept ↦ elim (Bool-cases (j == k)) [
          | inl same ↦ absurd (cc (rw same at h))
          | inr other ↦ rw kept (rw other (items_left-none d k m (rw other at h)))
        ]
      ]

  del_device-Fewer :
      (name : String) (c c0 : Config)
      → Fewer c0 tt c
      → After {A = Unit} (Fewer c0) (del_device (named station_id name) c)
  unfolding del_device
  del_device-Fewer name c c0 h =
      statement-After (Fewer c0) _ c
        (λ fs n out. items_left-none (named station_id name) (named station_id n) c.items (h n out))

  pub del_devices-Fewer :
      (ds : OldDevices) (c c0 : Config)
      → Fewer c0 tt c
      → After {A = Unit} (Fewer c0) (del_devices station_id ds c)
  unfolding del_devices pure call
  del_devices-Fewer [] c c0 h = h
  del_devices-Fewer ((name, true) ∷ rest) c c0 h =
      bind-After (Fewer c0) (Fewer c0) _ _ c h (λ u c1 h1. del_devices-Fewer rest c1 c0 h1)
  del_devices-Fewer ((name, false) ∷ rest) c c0 h =
      bind-After (Fewer c0) (Fewer c0) _ _ c
        (bind-After (Fewer c0) (Fewer c0) _ _ c (del_device-Fewer name c c0 h) (λ u c1 h1. h1))
        (λ u c1 h1. del_devices-Fewer rest c1 c0 h1)

  named_eq-name : (a b : String) → (named station_id a == named station_id b) ≡ (a == b)
  named_eq-name a b = ground (arith, nat_keys.beq_iff station_id station_id)

  row-delete :
      (name n : String) (c : Config)
      → lookup (named station_id n) (delete (named station_id name) c.items)
        ≡ (if name == n then none else row c n)
  row-delete name n c =
      lookup-delete (named station_id name) (named station_id n) c.items
      ∙ ap (λ (b : Bool). if b then none else row c n) (named_eq-name name n)

  row-insert :
      (name n : String) (i : ItemInfo) (c : Config)
      → lookup (named station_id n) (insert (named station_id name) i c.items)
        ≡ (if name == n then some i else row c n)
  row-insert name n i c =
      lookup-insert (named station_id name) (named station_id n) i c.items
      ∙ ap (λ (b : Bool). if b then some i else row c n) (named_eq-name name n)

  -- An item that is gone stays gone, and one that is old and not new is gone.
  abbrev pub Pruned : ItemInfos → ItemInfos → Config → Unit {0} → Config → Type 0
  Pruned fresh old c u c' =
      (n : String)
      → lookup n fresh ≡ none
      → (row c n ≡ none) ⊎ (is_none (lookup n old) ≡ false)
      → row c' n ≡ none

  del_item-After :
      (name : String) (c : Config)
      → After {A = Unit}
          (λ u c'. (n : String) → row c' n ≡ (if name == n then none else row c n))
          (del_item (named station_id name) c)
  unfolding del_item
  del_item-After name c = statement-After _ _ c (λ fs n. row-delete name n c)

  -- The body of the loop that deletes items.
  abbrev delete_old : ItemInfos → String → Exec Config Unit → Exec Config Unit
  delete_old fresh name m = if is_none (lookup name fresh) then m else pure tt

  delete_old-After :
      (fresh : ItemInfos) (name : String) (body : HubCall) (c : Config)
      → After {A = Unit}
          (λ u c1.
            (n : String)
            → lookup n fresh ≡ none
            → (row c n ≡ none) ⊎ ((name == n) ≡ true)
            → row c1 n ≡ none)
          (delete_old fresh name (del_item (named station_id name) >>= (λ u. call body)) c)
  unfolding pure call
  delete_old-After fresh name body c = elim (Bool-cases (is_none (lookup name fresh))) [
    | inl old ↦ rw old (
        bind-After _ _ (del_item (named station_id name)) (λ u. call body) c (del_item-After name c)
          (λ u c1 h n out from.
            h n ∙ elim from [ inl gone ↦ ground (arith, gone) | inr same ↦ rw same refl ]))
    | inr new ↦ rw new (λ n out from. elim from [
      | inl gone ↦ gone
      | inr same ↦
          let e : name ≡ n = (string_keys.beq_iff name n).0 same in absurd (cc (rw (e, out) at new))
    ])
  ]

  pub del_items-Pruned :
      (fresh old : ItemInfos) (c : Config)
      → After {A = Unit} (Pruned fresh old c) (del_items station_id fresh old c)
  unfolding del_items
  del_items-Pruned fresh [] c =
      unfold pure in (λ n out from. elim from [ inl gone ↦ gone | inr e ↦ absurd (cc e) ])
  del_items-Pruned fresh ((name, o) ∷ rest) c =
      bind-After _ (Pruned fresh ((name, o) ∷ rest) c) _ _ c (delete_old-After fresh name _ c)
        (λ u c1 h1. weaken c1 h1 _ (del_items-Pruned fresh rest c1))
    where
      weaken :
          (c1 : Config)
          → ((n : String)
              → lookup n fresh ≡ none
              → (row c n ≡ none) ⊎ ((name == n) ≡ true)
              → row c1 n ≡ none)
          → (r : Result (Unit {0}) × Config) → After {A = Unit} (Pruned fresh rest c1) r
          → After {A = Unit} (Pruned fresh ((name, o) ∷ rest) c) r
      weaken c1 h1 (err e, c') h = tt
      weaken c1 h1 (ok u, c') h = λ n out from. h n out (elim from [
        | inl gone ↦ inl (h1 n out (inl gone))
        | inr there ↦ elim (Bool-cases (name == n)) [
          | inl same ↦ inl (h1 n out (inr same))
          | inr other ↦ inr (rw other at there)
        ]
      ])

  abbrev or_row : Option ItemInfo → Option ItemInfo → Option ItemInfo
  or_row (some i) o = some i
  or_row none o = o

  -- The items of the list stand as the list says, every other one as it was.
  abbrev pub Written : {A : Type 0} → ItemInfos → Config → A → Config → Type 0
  Written list c a c' = (n : String) → row c' n ≡ or_row (lookup n list) (row c n)

  abbrev Put : String → ItemInfo → Config → Unit {0} → Config → Type 0
  Put name i c u c' = (n : String) → row c' n ≡ (if name == n then some i else row c n)

  edit_item-After :
      (name : String) (i : ItemInfo) (c : Config)
      → After {A = Unit} (Put name i c) (edit_item (named station_id name) i c)
  unfolding edit_item item_written
  edit_item-After name i c = elim (Bool-cases (contains_illegal_character name)) [
    | inl illegal ↦ rw illegal tt
    | inr legal ↦ rw legal (
        statement-After (Put name i c) _ c (λ fs.
          elim (Bool-cases (contains (named station_id i.device_name) c.devices)) [
            | inl there ↦ rw there (λ n. row-insert name n i c)
            | inr missing ↦ rw missing tt
          ]))
  ]

  changed_lem :
      (name : String) (o : Option ItemInfo) (i : ItemInfo)
      → (name == i.device_name) ≡ false
      → changed name o i ≡ true
  changed_lem name none i h = refl
  changed_lem name (some old) i h = rw h refl

  pub edit_items-Written :
      (old list : ItemInfos) (c : Config)
      → Distinct list
      → Differs list
      → After {A = ℕ} (Written list c) (edit_items station_id old list c)
  unfolding edit_items call pure
  edit_items-Written old [] c d h = λ n. refl
  edit_items-Written old ((name, i) ∷ rest) c d h =
      rw (changed_lem name (lookup name old) i (h name i (rw (==_refl name) refl))) (
        bind-After (Put name i c) (Written ((name, i) ∷ rest) c) _ _ c
          (bind-After (Put name i c) (Put name i c) _ _ c (edit_item-After name i c)
            (λ u c1 h1. h1))
          (λ u c1 h1.
            bind-After (Written rest c1) (Written ((name, i) ∷ rest) c) _ _ c1
              (edit_items-Written old rest c1 d.1 (differs-rest h))
              (λ k c2 h2 n. h2 n ∙ combined n c1 (h1 n))))
    where
      differs-rest : Differs ((name, i) ∷ rest) → Differs rest
      differs-rest all n j at = elim (Bool-cases (name == n)) [
        | inl same ↦
            let e : name ≡ n = (string_keys.beq_iff name n).0 same in absurd (cc (rw e at d.0, at))
        | inr other ↦ all n j (rw other at)
      ]

      combined :
          (n : String) (c1 : Config)
          → row c1 n ≡ (if name == n then some i else row c n)
          → or_row (lookup n rest) (row c1 n)
            ≡ or_row (if name == n then some i else lookup n rest) (row c n)
      combined n c1 e = elim (Bool-cases (name == n)) [
        | inl same ↦
            let p : name ≡ n = (string_keys.beq_iff name n).0 same in
            let out : lookup n rest ≡ none = rw p at d.0 in rw (e, out, same) refl
        | inr other ↦ rw (e, other) refl
      ]
