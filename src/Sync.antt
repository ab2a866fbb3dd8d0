-- ===== src/Sync.antt =====
-- tide_server/db/device.go, item.go and station.go: the configuration of the stations, in the columns
-- that the sync of a station's information reads and writes. A statement is one step.
pub mod Available
pub mod StationInfo
pub mod Edited
pub mod Reflected
use Prim.Native.String.{◌++◌ as text_append}
use tidegauge_backend.Prelude.{
  ℕ, String, List, [], ◌∷◌, ◌++◌, Bool, true, false, ◌&&◌, ◌||◌, Option, none, some, ◌≡◌, ◌↔◌, Eq,
  ◌==◌, nat_keys, string_keys, contains, lookup, insert, delete, if◌then◌else◌, arith,
}
use tidegauge_backend.Types.{Uuid, Error, new, sql, nil_uuid}
use tidegauge_backend.Exec.{Exec, ok, err}
use tidegauge_backend.Db.{contains_illegal_character}
use tidegauge_backend.Relay.{ConfigBody}

-- The primary key of `devices` and of `items`.
pub record Named : Type 0 where
  pub station_id : Uuid
  pub name : String

abbrev pub named_eq : Named → Named → Bool
named_eq a b = a.station_id == b.station_id && a.name == b.name

pub named_eq_iff : (a b : Named) → (named_eq a b ≡ true) ↔ (a ≡ b)
named_eq_iff a b =
    ground (arith, string_keys.beq_iff a.name b.name, nat_keys.beq_iff a.station_id b.station_id)

instance abbrev pub named_keys : Eq Named
named_keys = record { beq = named_eq; beq_iff = named_eq_iff }

pub record ItemInfo : Type 0 where
  pub type_name : String
  pub device_name : String

-- What a call of the hub does here.
pub data HubCall : Type 0 where
  publish_config : String → ConfigBody → HubCall
  broadcast_add_items : HubCall

-- The tables, the faults of the statements to come (`none` works), and the calls of the hub.
pub record Config : Type 0 where
  pub devices : List Named
  pub items : List (Named × ItemInfo)
  pub cameras : List (Uuid × String)
  pub faults : List (Option Error)
  pub calls : List HubCall

fault_of : {A : Type 0} → List (Option Error) → Exec Config A → Exec Config A
fault_of [] run c = run c
fault_of (none ∷ rest) run c = run (record c { faults = rest })
fault_of (some e ∷ rest) run c = (err e, record c { faults = rest })

unfoldable pub statement : {A : Type 0} → Exec Config A → Exec Config A
unfolding fault_of
statement run c = fault_of c.faults run c

-- `where station_id=$1`, or every row for the nil UUID.
abbrev pub of_station : Uuid → Named → Bool
of_station station_id k = station_id == nil_uuid || k.station_id == station_id

unfoldable pub device_names : Uuid → List Named → List String
device_names station_id [] = []
device_names station_id (k ∷ rest) =
    let more = device_names station_id rest in
    if of_station station_id k then k.name ∷ more else more

unfoldable pub get_devices : Uuid → Exec Config (List String)
get_devices station_id c = statement (λ d. (ok (device_names station_id d.devices), d)) c

unfoldable pub item_rows : Uuid → List (Named × ItemInfo) → List (String × ItemInfo)
item_rows station_id [] = []
item_rows station_id ((k, i) ∷ rest) =
    let more = item_rows station_id rest in
    if of_station station_id k then (k.name, i) ∷ more else more

unfoldable pub get_items : Uuid → Exec Config (List (String × ItemInfo))
get_items station_id c = statement (λ d. (ok (item_rows station_id d.items), d)) c

-- `EditDevice` of a device without specs: inserted, or nothing on a conflict.
device_added : Named → Config → Config
device_added k c = if contains k c.devices then c else record c { devices = c.devices ++ k ∷ [] }

unfoldable pub edit_device : Named → Exec Config Unit
unfolding device_added
edit_device k c = statement (λ d. (ok tt, device_added k d)) c

-- The rows that a delete of a device concerns: all of the station where no name is given.
abbrev pub concerns : Named → Named → Bool
concerns k j = j.station_id == k.station_id && (k.name == "" || j.name == k.name)

unfoldable pub devices_left : Named → List Named → List Named
devices_left k [] = []
devices_left k (j ∷ rest) =
    let more = devices_left k rest in if concerns k j then more else j ∷ more

-- The items of a device go with it (`on delete cascade`).
unfoldable pub items_left : Named → List (Named × ItemInfo) → List (Named × ItemInfo)
items_left k [] = []
items_left k ((j, i) ∷ rest) =
    let more = items_left k rest in
    if concerns k (record { station_id = j.station_id; name = i.device_name })
    then more
    else (j, i) ∷ more

unfoldable pub del_device : Named → Exec Config Unit
del_device k c =
    statement
      (λ d. (ok tt, record d { devices = devices_left k d.devices; items = items_left k d.items }))
      c

unfoldable pub del_item : Named → Exec Config Unit
del_item k c = statement (λ d. (ok tt, record d { items = delete k d.items })) c

-- `MakeSureTableExist` refuses a name that is no table's (the table that it makes is not among these);
-- the foreign key refuses an item whose device is missing.
item_written : Named → ItemInfo → Exec Config Unit
item_written k i c =
    if contains (record { station_id = k.station_id; name = i.device_name }) c.devices
    then (ok tt, record c { items = insert k i c.items })
    else (err (sql "23503"), c)

unfoldable pub edit_item : Named → ItemInfo → Exec Config Unit
unfolding item_written contains_illegal_character
edit_item k i c =
    if contains_illegal_character k.name
    then (err (new (text_append "Table name contains illegal characters: " k.name)), c)
    else statement (item_written k i) c

-- Whether the cameras of a station changed.
cameras_written : Uuid → String → Option String → Exec Config Bool
cameras_written station_id cameras none c = (ok false, c)
cameras_written station_id cameras (some before) c =
    if before == cameras
    then (ok false, c)
    else (ok true, record c { cameras = insert station_id cameras c.cameras })

unfoldable pub sync_station_cannot_edit : Uuid → String → Exec Config Bool
unfolding cameras_written
sync_station_cannot_edit station_id cameras c =
    statement (λ d. cameras_written station_id cameras (lookup station_id d.cameras) d) c

unfoldable pub call : HubCall → Exec Config Unit
call h c = (ok tt, record c { calls = c.calls ++ h ∷ [] })
