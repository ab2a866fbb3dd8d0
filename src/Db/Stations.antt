-- ===== src/Db/Stations.antt =====
-- tide_server/db/station.go: what a station session reads and writes of the stations table.
use tidegauge_backend.Prelude.{
  String, List, [], ◌∷◌, Bool, true, not, ◌&&◌, Option, none, some, if◌then◌else◌, string_keys,
  nat_keys, ◌==◌,
}
use tidegauge_backend.Types.{Uuid, Error, new}
use tidegauge_backend.Exec.{Exec, Result, ok, err}
use tidegauge_backend.Db.{Database, StationRow, update_where}

-- `sql.ErrNoRows`.
abbrev pub no_rows : Error
no_rows = new "sql: no rows in result set"

-- `where identifier = $1 and upstream = false and deleted_at is null`.
abbrev is_local : String → StationRow → Bool
is_local identifier r = r.identifier == identifier && (not r.upstream && not r.deleted)

find_local : String → List (Uuid × StationRow) → Option Uuid
find_local identifier [] = none
find_local identifier ((id, r) ∷ rows) =
    let rest = find_local identifier rows in if is_local identifier r then some id else rest

abbrev or_no_rows : Option Uuid → Result Uuid
or_no_rows none = err no_rows
or_no_rows (some id) = ok id

unfoldable pub get_local_station_id_by_identifier : String → Exec Database Uuid
unfolding find_local
get_local_station_id_by_identifier identifier db =
    (or_no_rows (find_local identifier db.stations), db)

unfoldable pub edit_station_not_sync : Uuid → String → Exec Database Unit
edit_station_not_sync id ip db =
    let (rows, n) = update_where id (λ r. true) (λ r. record r { ip_addr = ip }) db.stations in
    (ok tt, record db { stations = rows })
