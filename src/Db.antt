-- ===== src/Db.antt =====
-- The tables of tide_server/schema.sql that the synchronisation writes, each keyed by its primary
-- key or unique index. The operations of tide_server/db stand in the modules below.
pub mod History
pub mod StatusLog
pub mod Stations
use Prim.Native.Char.{code}
use tidegauge_backend.Prelude.{
  ℕ, String, List, [], ◌∷◌, Bool, true, false, ◌≡◌, refl, ◌↔◌, ◌&&◌, ◌||◌, not, arith, Eq, ◌==◌,
  nat_keys, string_keys, leb, nat_eq, Option, none, some, lookup, insert, if◌then◌else◌,
}
use tidegauge_backend.Prelude.Int.{ℤ, int_keys}
use tidegauge_backend.Types.{
  Uuid, UnixMs, Float64, Status, StationItem, ItemStatus, StatusChange, RpiStatusTime,
}

pub record StationRow : Type 0 where
  pub identifier : String
  pub ip_addr : String
  pub status : Status
  pub status_changed_at : UnixMs
  pub upstream : Bool
  pub deleted : Bool

pub record ItemRow : Type 0 where
  pub type_name : String
  pub device_name : String
  pub status : Status
  pub status_changed_at : UnixMs

-- `(station_id, row_id)` of item_status_log, and `(station_id, timestamp)` of an item's table.
pub record RowKey : Type 0 where
  pub station_id : Uuid
  pub place : ℤ

abbrev pub row_key_eq : RowKey → RowKey → Bool
row_key_eq a b = a.station_id == b.station_id && a.place == b.place

pub row_key_eq_iff : (a b : RowKey) → (row_key_eq a b ≡ true) ↔ (a ≡ b)
row_key_eq_iff a b =
    ground (arith, nat_keys.beq_iff a.station_id b.station_id, int_keys.beq_iff a.place b.place)

instance abbrev pub row_keys : Eq RowKey
row_keys = record { beq = row_key_eq; beq_iff = row_key_eq_iff }

abbrev pub DataTable : Type 0
DataTable = List (RowKey × Float64)

pub record Database : Type 0 where
  pub stations : List (Uuid × StationRow)
  pub items : List (StationItem × ItemRow)
  pub status_log : List (RowKey × ItemStatus)
  pub tables : List (String × DataTable)
  pub rpi_log : List (Uuid × RpiStatusTime)

-- common/utils.go: `[^0-9a-z_]` matches somewhere in the name.
abbrev legal_code : ℕ → Bool
legal_code c = (leb b'0' c && leb c b'9') || (leb b'a' c && leb c b'z') || nat_eq c b'_'

unfoldable pub contains_illegal_character : String → Bool
contains_illegal_character String.[] = false
contains_illegal_character (String.◌∷◌ c s) =
    not (legal_code (code c)) || contains_illegal_character s

-- `update … where key = … and test`: the rows (a key stands once), and the number changed.
abbrev update_found :
    {K V : Type 0} ⦃e : Eq K⦄
    → K
    → (V → Bool)
    → (V → V)
    → List (K × V)
    → Option V
    → List (K × V) × ℕ
update_found k test change rows none = (rows, 0)
update_found k test change rows (some v) =
    if test v then (insert k (change v) rows, 1) else (rows, 0)

abbrev pub update_where :
    {K V : Type 0} ⦃e : Eq K⦄ → K → (V → Bool) → (V → V) → List (K × V) → List (K × V) × ℕ
update_where k test change rows = update_found k test change rows (lookup k rows)

-- `insert … on conflict do nothing`: the rows, and the number inserted.
abbrev insert_found : {K V : Type 0} ⦃e : Eq K⦄ → K → V → List (K × V) → Option V → List (K × V) × ℕ
insert_found k v rows none = (insert k v rows, 1)
insert_found k v rows (some w) = (rows, 0)

abbrev pub insert_new : {K V : Type 0} ⦃e : Eq K⦄ → K → V → List (K × V) → List (K × V) × ℕ
insert_new k v rows = insert_found k v rows (lookup k rows)
