-- ===== src/Sync/Available.antt =====
-- tide_server/db/item.go: which items each upstream makes available (`UpdateAvailableItems`,
-- `RemoveAvailableByUpstreamId`, `GetAvailableItems`). The hstore column of an item is the list of its
-- keys, the upstreams; 0 is the server itself.
pub mod Rows
pub mod Loops
pub mod Updated
use tidegauge_backend.Prelude.{
  ℕ, suc, String, List, [], ◌∷◌, ◌++◌, Bool, true, false, not, ◌&&◌, Option, none, some, ◌==◌,
  nat_keys, Eq, contains, if◌then◌else◌,
}
use tidegauge_backend.Types.{Uuid, Error, UuidStringsMap, StationItem, station_item_keys}
use tidegauge_backend.Exec.{Exec, Result, ok, err, pure, ◌>>=◌, ◌>>◌}
use tidegauge_backend.Relay.Convert.{uuid_strings_map_to_topics}

-- The column, the rows of `upstream_stations`, and the faults of the statements to come.
pub record Availability : Type 0 where
  pub items : List (StationItem × List ℕ)
  pub upstream_stations : List (ℕ × Uuid)
  pub faults : List (Option Error)

fault_of : {A : Type 0} → List (Option Error) → Exec Availability A → Exec Availability A
fault_of [] run s = run s
fault_of (none ∷ rest) run s = run (record s { faults = rest })
fault_of (some e ∷ rest) run s = (err e, record s { faults = rest })

unfoldable pub statement : {A : Type 0} → Exec Availability A → Exec Availability A
unfolding fault_of
statement run s = fault_of s.faults run s

-- A transaction: `Begin` and `Commit` are statements of their own, and an error rolls back.
unfoldable pub committed :
    {A : Type 0} → Availability → Result A × Availability → Result A × Availability
committed before (ok a, after) = (ok a, after)
committed before (err e, after) = (err e, record before { faults = after.faults })

unfoldable pub transaction : {A : Type 0} → Exec Availability A → Exec Availability A
unfolding committed
transaction run s = committed s ((do statement (pure tt); a ← run; statement (pure tt); pure a) s)

-- `delete(m, k)` on the keys.
module _ {A : Type 0} ⦃e : Eq A⦄ where
  unfoldable pub without : A → List A → List A
  without a [] = []
  without a (x ∷ xs) = let rest = without a xs in if x == a then rest else x ∷ rest

abbrev pub has_station : ℕ → Uuid → List (ℕ × Uuid) → Bool
has_station upstream_id station_id [] = false
has_station upstream_id station_id ((u, id) ∷ rest) =
    if u == upstream_id && id == station_id then true else has_station upstream_id station_id rest

-- The items that the upstream makes available now.
unfoldable pub old_items : ℕ → List (ℕ × Uuid) → List (StationItem × List ℕ) → List StationItem
old_items upstream_id stations [] = []
old_items upstream_id stations ((si, ups) ∷ rest) =
    let more = old_items upstream_id stations rest in
    if contains upstream_id ups && has_station upstream_id si.station_id stations
    then si ∷ more
    else more

-- `update items set available = … where station_id=$1 and name=$2`.
unfoldable pub update_row :
    StationItem → (List ℕ → List ℕ) → List (StationItem × List ℕ) → List (StationItem × List ℕ)
update_row si f [] = []
update_row si f ((k, ups) ∷ rest) =
    let rest' = update_row si f rest in if k == si then (k, f ups) ∷ rest' else (k, ups) ∷ rest'

abbrev pub with_upstream : ℕ → List ℕ → List ℕ
with_upstream upstream_id ups = if contains upstream_id ups then ups else ups ++ upstream_id ∷ []

unfoldable pub add_available : ℕ → StationItem → Exec Availability Unit
add_available upstream_id si s =
    statement (λ a. (ok tt, record a { items = update_row si (with_upstream upstream_id) a.items }))
      s

unfoldable pub remove_available : ℕ → StationItem → Exec Availability Unit
unfolding without
remove_available upstream_id si s =
    statement (λ a. (ok tt, record a { items = update_row si (without upstream_id) a.items })) s

-- The loop over the new items: what is left of the old ones, and the count.
unfoldable pub add_new :
    ℕ → List StationItem → List StationItem → ℕ → Exec Availability (List StationItem × ℕ)
unfolding without
add_new upstream_id old [] n = pure (old, n)
add_new upstream_id old (si ∷ rest) n =
    if contains si old
    then add_new upstream_id (without si old) rest n
    else (do add_available upstream_id si; add_new upstream_id old rest (suc n))

unfoldable pub remove_old : ℕ → List StationItem → ℕ → Exec Availability ℕ
remove_old upstream_id [] n = pure n
remove_old upstream_id (si ∷ rest) n = do
  remove_available upstream_id si
  remove_old upstream_id rest (suc n)

unfoldable pub update_available_items : ℕ → UuidStringsMap → Exec Availability ℕ
update_available_items upstream_id fresh = transaction (do
  old ← statement (λ a. (ok (old_items upstream_id a.upstream_stations a.items), a))
  left ← add_new upstream_id old (uuid_strings_map_to_topics fresh) 0
  remove_old upstream_id left.0 left.1)

unfoldable pub available_names : List (StationItem × List ℕ) → List StationItem
available_names [] = []
available_names ((si, []) ∷ rest) = available_names rest
available_names ((si, u ∷ ups) ∷ rest) = si ∷ available_names rest

unfoldable pub get_available_items : Exec Availability (List StationItem)
get_available_items s = statement (λ a. (ok (available_names a.items), a)) s

-- `RemoveAvailableByUpstreamId`: the items of the stations that have the upstream.
unfoldable pub remove_rows :
    ℕ → List (ℕ × Uuid) → List (StationItem × List ℕ) → List (StationItem × List ℕ)
unfolding without
remove_rows upstream_id stations [] = []
remove_rows upstream_id stations ((si, ups) ∷ rest) =
    let rest' = remove_rows upstream_id stations rest in
    if has_station upstream_id si.station_id stations
    then (si, without upstream_id ups) ∷ rest'
    else (si, ups) ∷ rest'

unfoldable pub remove_available_by_upstream_id : ℕ → Exec Availability Unit
remove_available_by_upstream_id upstream_id = transaction (
    statement
      (λ a. (ok tt, record a { items = remove_rows upstream_id a.upstream_stations a.items })))
