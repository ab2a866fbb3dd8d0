-- ===== src/Sync/Available/Rows.antt =====
-- The column of tide_server/db/item.go that `UpdateAvailableItems` edits, seen at each item.
use tidegauge_backend.Prelude.{
  ℕ, ◌≡◌, refl, ◌∙◌, ap, Bool, true, false, not, ◌&&◌, ◌||◌, Option, none, some, List, [], ◌∷◌,
  ◌++◌, arith, Eq, ◌==◌, nat_keys, nat_eq_iff, contains, lookup, if◌then◌else◌,
}
use tidegauge_backend.Types.{Error, StationItem, station_item_keys}
use tidegauge_backend.Exec.{Exec}
use tidegauge_backend.Exec.After.{After}
use tidegauge_backend.Sync.Available.{
  Availability, statement, fault_of, without, update_row, with_upstream,
}

abbrev pub Rows : Type 0
Rows = List (StationItem × List ℕ)

module _ {A : Type 0} ⦃e : Eq A⦄ where
  pub contains-without :
      (a b : A) (xs : List A) → contains b (without a xs) ≡ (not (a == b) && contains b xs)
  unfolding without
  contains-without a b [] = ground arith
  contains-without a b (x ∷ xs) =
      ground (arith, e.beq_iff a b, e.beq_iff x a, e.beq_iff b x, contains-without a b xs)

  pub contains-append-one :
      (a b : A) (xs : List A) → contains b (xs ++ a ∷ []) ≡ (contains b xs || b == a)
  contains-append-one a b [] = ground arith
  contains-append-one a b (x ∷ xs) = ground (arith, contains-append-one a b xs)

-- Whether the item has a row, and whether the upstream makes it available.
abbrev pub holds : ℕ → Option (List ℕ) → Bool
holds u none = false
holds u (some ups) = contains u ups

abbrev pub is_there : Option (List ℕ) → Bool
is_there none = false
is_there (some ups) = true

abbrev pub available_by : ℕ → StationItem → Rows → Bool
available_by u j m = holds u (lookup j m)

abbrev pub present : StationItem → Rows → Bool
present j m = is_there (lookup j m)

abbrev map_row : (List ℕ → List ℕ) → Option (List ℕ) → Option (List ℕ)
map_row f none = none
map_row f (some ups) = some (f ups)

pub lookup-update_row :
    (k j : StationItem) (f : List ℕ → List ℕ) (m : Rows)
    → lookup j (update_row k f m) ≡ (if k == j then map_row f (lookup j m) else lookup j m)
unfolding update_row
lookup-update_row k j f [] = ground arith
lookup-update_row k j f ((i, ups) ∷ m) = ground (
  arith,
  station_item_keys.beq_iff k j,
  station_item_keys.beq_iff i k,
  station_item_keys.beq_iff i j,
  lookup-update_row k j f m,
)

added_row :
    (u v : ℕ) (o : Option (List ℕ))
    → holds v (map_row (with_upstream u) o) ≡ (holds v o || (v == u && is_there o))
added_row u v none = ground arith
added_row u v (some ups) = ground (arith, contains-append-one u v ups, nat_eq_iff v u)

removed_row :
    (u v : ℕ) (o : Option (List ℕ)) → holds v (map_row (without u) o) ≡ (holds v o && not (v == u))
removed_row u v none = ground arith
removed_row u v (some ups) =
    ground (arith, contains-without u v ups, nat_eq_iff v u, nat_eq_iff u v)

pub present-update_row :
    (k j : StationItem) (f : List ℕ → List ℕ) (m : Rows)
    → present j (update_row k f m) ≡ present j m
present-update_row k j f m = ap is_there (lookup-update_row k j f m) ∙ split (k == j) (lookup j m)
  where
    split : (b : Bool) (o : Option (List ℕ)) → is_there (if b then map_row f o else o) ≡ is_there o
    split true none = refl
    split true (some ups) = refl
    split false o = refl

pub available_by-added :
    (u v : ℕ) (k j : StationItem) (m : Rows)
    → available_by v j (update_row k (with_upstream u) m)
      ≡ (available_by v j m || (v == u && k == j && present j m))
available_by-added u v k j m =
    ap (holds v) (lookup-update_row k j (with_upstream u) m) ∙ split (k == j)
  where
    split :
        (b : Bool)
        → holds v (if b then map_row (with_upstream u) (lookup j m) else lookup j m)
          ≡ (available_by v j m || (v == u && b && present j m))
    split true = added_row u v (lookup j m) ∙ ground arith
    split false = ground arith

pub available_by-removed :
    (u v : ℕ) (k j : StationItem) (m : Rows)
    → available_by v j (update_row k (without u) m) ≡ (available_by v j m && not (v == u && k == j))
available_by-removed u v k j m = ap (holds v) (lookup-update_row k j (without u) m) ∙ split (k == j)
  where
    split :
        (b : Bool)
        → holds v (if b then map_row (without u) (lookup j m) else lookup j m)
          ≡ (available_by v j m && not (v == u && b))
    split true = removed_row u v (lookup j m) ∙ ground arith
    split false = ground arith

pub statement-After :
    {A : Type 0} (Q : A → Availability → Type 0) (run : Exec Availability A) (s : Availability)
    → ((fs : List (Option Error)) → After Q (run (record s { faults = fs })))
    → After Q (statement run s)
unfolding statement
statement-After Q run s h = split s.faults
  where
    split : (fs : List (Option Error)) → After Q (fault_of fs run s)
    split [] = unfold fault_of in h s.faults
    split (none ∷ rest) = unfold fault_of in h rest
    split (some e ∷ rest) = unfold fault_of in tt
