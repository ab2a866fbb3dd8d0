-- ===== src/Device/Counter.antt =====
-- tide_client/device/i2c_pcf8583.go: the event counter of a rain gauge.
pub mod Rainfall
use Prim.Native.Nat.{bit_and, bit_or}
use tidegauge_backend.Prelude.{
  ℕ, ◌+◌, ◌*◌, ◌/◌, ◌%◌, ◌^◌, Bool, List, [], ◌∷◌, Option, none, some, if◌then◌else◌,
}
use tidegauge_backend.Exec.{Exec, Result, ok, err, pure, ◌>>=◌, ◌>>◌, ignoring, attempt}
use tidegauge_backend.Device.Bytes.{Byte, byte_at}

-- `i2c.Dev` (periph.io): `Tx` writes bytes and fills a buffer, `Write` only writes. `D` is the state
-- of the chip and of the bus.
pub record I2cDev (D : Type 0) : Type 0 where
  pub tx : List Byte → ℕ → Exec D (List Byte)
  pub write : List Byte → Exec D Unit

abbrev pub mode_event_counter : Byte
mode_event_counter = 0x20

abbrev pub ctrl_stop_counting : Byte
ctrl_stop_counting = 0x80

abbrev pub location_control : Byte
location_control = 0x00

abbrev pub location_counter : Byte
location_counter = 0x01

-- Arithmetic on `byte` wraps at 256.
unfoldable pub bcd_to_byte : Byte → Byte
bcd_to_byte b = ((b / 16) * 10 + b % 16) % 256

unfoldable pub byte_to_bcd : Byte → Byte
byte_to_bcd b = bit_or ((b / 10 * 16) % 256) (b % 10)

-- The sum is one of `int32`.
unfoldable pub count_of : List Byte → ℕ
count_of bytes =
    (bcd_to_byte (byte_at 0 bytes)
      + bcd_to_byte (byte_at 1 bytes) * 100
      + bcd_to_byte (byte_at 2 bytes) * 10000)
    % 2 ^ 32

module _ {D : Type 0} (dev : I2cDev D) where
  unfoldable pub set_register : Byte → Byte → Exec D Unit
  set_register offset value = dev.write (offset ∷ value ∷ [])

  unfoldable pub get_register : Byte → Exec D Byte
  get_register offset = do bytes ← dev.tx (offset ∷ []) 1; pure (byte_at 0 bytes)

  unfoldable pub get_count : Exec D ℕ
  get_count = do bytes ← dev.tx (location_counter ∷ []) 3; pure (count_of bytes)

  -- For a count that is not negative; the code only passes 0.
  unfoldable pub set_count : ℕ → Exec D Unit
  set_count count = do
    ctrl ← get_register location_control
    set_register location_control (bit_or ctrl ctrl_stop_counting)
    dev.write (
        location_counter
        ∷ byte_to_bcd (count % 100 % 256)
        ∷ byte_to_bcd (count / 100 % 100 % 256)
        ∷ byte_to_bcd (count / 10000 % 100 % 256)
        ∷ [])
    set_register location_control (bit_and ctrl 0x7F)

  -- `job`: the tenths of a millimetre, `cnt*2` of `int32`, that the code divides by 10 as a float.
  reported : Bool → Result ℕ → Exec D (Option ℕ)
  reported reset_c (err e) = pure none
  reported reset_c (ok cnt) =
      if reset_c
      then ignoring (set_count 0) (pure (some (cnt * 2 % 2 ^ 32)))
      else pure (some (cnt * 2 % 2 ^ 32))

  unfoldable pub job : Bool → Exec D (Option ℕ)
  unfolding reported
  job reset_c = attempt get_count (reported reset_c)

  -- The start of `NewI2CDevice`: the mode is set and the counter reset, errors dropped.
  unfoldable pub new_i2c_device : Exec D Unit
  new_i2c_device =
      ignoring (set_register location_control mode_event_counter) (ignoring (set_count 0) (pure tt))
