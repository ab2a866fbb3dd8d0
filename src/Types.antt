-- ===== src/Types.antt =====
-- common/type.go, common/const.go and pkg/custype/time.go: the values that the parts pass around. A
-- UUID is its 128-bit number, a `float64` its bit pattern (both only stored, compared and forwarded),
-- Unix milliseconds and row numbers are integers. A Go map is a list of its entries.
use tidegauge_backend.Prelude.{
  ℕ, String, List, Bool, true, false, ◌≡◌, ◌↔◌, ◌&&◌, arith, Eq, ◌==◌, nat_keys, string_keys,
}
use tidegauge_backend.Prelude.Int.{ℤ}

abbrev pub Uuid : Type 0
Uuid = ℕ

-- `uuid.Nil`.
abbrev pub nil_uuid : Uuid
nil_uuid = 0

abbrev pub Float64 : Type 0
Float64 = ℕ

abbrev pub UnixMs : Type 0
UnixMs = ℤ

abbrev pub Status : Type 0
Status = String

abbrev pub no_status : Status
no_status = "NoStatus"

abbrev pub disconnected : Status
disconnected = "Disconnected"

abbrev pub normal : Status
normal = "Normal"

abbrev pub abnormal : Status
abnormal = "Abnormal"

-- An `error`: a text of `errors.New`, a wrapped error, and the sentinels that the code tests for.
pub data Error : Type 0 where
  new : String → Error
  wrap : String → Error → Error
  eof canceled deadline_exceeded timeout not_connected : Error
  -- A database error with its SQLSTATE.
  sql : String → Error

-- `errors.Is(err, io.EOF)`, through the wrapped errors.
pub is_eof : Error → Bool
is_eof (wrap _ e) = is_eof e
is_eof eof = true
is_eof (new _) = false
is_eof canceled = false
is_eof deadline_exceeded = false
is_eof timeout = false
is_eof not_connected = false
is_eof (sql _) = false

-- `errors.Is(err, context.Canceled)`.
pub is_canceled : Error → Bool
is_canceled (wrap _ e) = is_canceled e
is_canceled canceled = true
is_canceled eof = false
is_canceled (new _) = false
is_canceled deadline_exceeded = false
is_canceled timeout = false
is_canceled not_connected = false
is_canceled (sql _) = false

-- `errors.AsType[*pgconn.PgError]`, and its code.
pub is_sql : String → Error → Bool
is_sql code (wrap _ e) = is_sql code e
is_sql code (sql c) = c == code
is_sql code eof = false
is_sql code canceled = false
is_sql code (new _) = false
is_sql code deadline_exceeded = false
is_sql code timeout = false
is_sql code not_connected = false

-- `errors.Is(err, connWrap.ErrTimeout)`.
pub is_timeout : Error → Bool
is_timeout (wrap _ e) = is_timeout e
is_timeout timeout = true
is_timeout eof = false
is_timeout (new _) = false
is_timeout canceled = false
is_timeout deadline_exceeded = false
is_timeout not_connected = false
is_timeout (sql _) = false

abbrev pub StringMapMap : Type 0
StringMapMap = List (String × List (String × String))

abbrev pub UuidStringsMap : Type 0
UuidStringsMap = List (Uuid × List String)

pub record StationInfo : Type 0 where
  pub identifier : String
  pub devices : StringMapMap
  pub cameras : List String

pub record DataTime : Type 0 where
  pub value : Float64
  pub millisecond : UnixMs

pub record ItemNameDataTime : Type 0 where
  pub item_name : String
  pub data_time : DataTime

pub record StatusChange : Type 0 where
  pub status : Status
  pub changed_at : UnixMs

pub record StationStatus : Type 0 where
  pub station_id : Uuid
  pub identifier : String
  pub change : StatusChange

pub record ItemStatus : Type 0 where
  pub item_name : String
  pub change : StatusChange

pub record RowIdItemStatus : Type 0 where
  pub row_id : ℤ
  pub item_status : ItemStatus

pub record FullItemStatus : Type 0 where
  pub station_id : Uuid
  pub identifier : String
  pub log : RowIdItemStatus

pub record StationItem : Type 0 where
  pub station_id : Uuid
  pub item_name : String

pub record RpiStatusTime : Type 0 where
  pub cpu_temp : Float64
  pub millisecond : UnixMs

abbrev pub station_item_eq : StationItem → StationItem → Bool
station_item_eq a b = a.station_id == b.station_id && a.item_name == b.item_name

pub station_item_eq_iff : (a b : StationItem) → (station_item_eq a b ≡ true) ↔ (a ≡ b)
station_item_eq_iff a b =
    ground (
      arith,
      nat_keys.beq_iff a.station_id b.station_id,
      string_keys.beq_iff a.item_name b.item_name,
    )

instance abbrev pub station_item_keys : Eq StationItem
station_item_keys = record { beq = station_item_eq; beq_iff = station_item_eq_iff }
