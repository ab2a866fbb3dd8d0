-- ===== src/Device/Sdi12.antt =====
-- tide_client/protocol/sdi12/session.go over tide_client/connWrap/bus.go: SDI-12 on a shared bus.
pub mod Finished
use Prim.Native.String.{◌++◌ as ◌+++◌}
use tidegauge_backend.Prelude.{
  ℕ, zero, suc, ◌+◌, String, List, [], ◌∷◌, ◌++◌, Bool, true, false, Option, none, some, length,
  leb, nat_eq, if◌then◌else◌,
}
use tidegauge_backend.Types.{Error, new, wrap, timeout, Float64, is_timeout}
use tidegauge_backend.Exec.{
  Exec, Result, ok, err, pure, raise, modify, relabel, ◌>>=◌, ◌>>◌, attempt,
}
use tidegauge_backend.Device.Bytes.{Byte}

-- The transport below the bus (`ConnCommon`), the buffered reader, and `fmt.Fscan` and `fmt.Fscanf`,
-- all over the state `D` of the line. A command is its text and the bytes behind it.
pub record Line (D : Type 0) : Type 0 where
  pub reset_input_buffer : Exec D Unit
  pub write : String → List Byte → Exec D Unit
  pub discard : ℕ → Exec D Unit
  pub peek : Exec D Byte
  pub scan_float : Exec D Float64
  pub scan_output : String → Exec D Unit

-- The line, whether the bus is locked, and for how many milliseconds the program slept.
pub record Bus (D : Type 0) : Type 0 where
  pub line : D
  pub locked : Bool
  pub slept : ℕ

pub data Mode : Type 0 where
  mode_native mode_arduino : Mode

abbrev pub io_error : Error → Error
io_error e = wrap "IO" e

abbrev pub parse_error : Error → Error
parse_error e = wrap "parse" e

abbrev pub wrong_number : Error
wrong_number = new "wrong number of data"

-- `input`, with what the Arduino needs behind it.
abbrev pub tail_of : Mode → Byte → List Byte
tail_of mode_native extra_wake_time = []
tail_of mode_arduino extra_wake_time = extra_wake_time ∷ 0xFF ∷ []

-- `strconv.Itoa` of the command numbers 0 to 9.
abbrev pub command_numbers : List String
command_numbers = "0" ∷ "1" ∷ "2" ∷ "3" ∷ "4" ∷ "5" ∷ "6" ∷ "7" ∷ "8" ∷ "9" ∷ []

module _ {D : Type 0} where
  -- A call on the line, whose error is wrapped.
  unfoldable pub on_line : {A : Type 0} → (Error → Error) → Exec D A → Exec (Bus D) A
  on_line f m s = let (r, d) = m s.line in (relabel f r, record s { line = d })

  unfoldable pub sleep : ℕ → Exec (Bus D) Unit
  sleep ms s = (ok tt, record s { slept = s.slept + ms })

  unfoldable pub set_locked : Bool → Exec (Bus D) Unit
  set_locked b s = (ok tt, record s { locked = b })

  -- `unlockBus`: after an error that is not a timeout a second passes first.
  unfoldable pub unlock_bus : {A : Type 0} → Result A → Exec (Bus D) Unit
  unlock_bus (ok a) = set_locked false
  unlock_bus (err e) = do if is_timeout e then pure tt else sleep 1000; set_locked false

  returned : {A : Type 0} → Result A → Exec (Bus D) A
  returned r s = (r, s)

  -- `s.bus.Lock(); defer s.unlockBus(&err)` around the rest.
  unfoldable pub with_bus : {A : Type 0} → Exec (Bus D) A → Exec (Bus D) A
  unfolding returned
  with_bus m = do set_locked true; attempt m (λ r. do unlock_bus r; returned r)

  module _ (line : Line D) where
    -- The end of a reply: its line end is dropped; it must have held a value.
    reply_end : ℕ → List Float64 → Exec (Bus D) (Option (List Float64))
    reply_end n values = do
      on_line io_error (line.discard 2)
      if nat_eq n 0 then raise (io_error wrong_number) else pure (some values)

    -- The inner loop, on fuel: the values so far, with those of this reply. `none` is out of fuel.
    unfoldable pub read_reply : ℕ → ℕ → List Float64 → Exec (Bus D) (Option (List Float64))
    unfolding reply_end
    read_reply zero n values = pure none
    read_reply (suc fuel) n values = do
      b ← on_line io_error line.peek
      if nat_eq b 13 then reply_end n values else (do
        f ← on_line parse_error line.scan_float
        read_reply fuel (suc n) (values ++ f ∷ []))

  then_values :
      (List Float64 → Exec (Bus D) (Option (List Float64)))
      → Option (List Float64)
      → Exec (Bus D) (Option (List Float64))
  then_values f none = pure none
  then_values f (some values) = f values

  check_number : ℕ → Option (List Float64) → Exec (Bus D) (Option (List Float64))
  check_number expected none = pure none
  check_number expected (some values) =
      if nat_eq (length values) expected
      then pure (some values)
      else raise (parse_error wrong_number)

  module _ (line : Line D) (mode : Mode) (quiet_ms : ℕ) where
    -- `Bus.Write`: wait, clear what is left of the last exchange, then write.
    unfoldable pub bus_write : String → List Byte → Exec (Bus D) Unit
    bus_write text bytes = do
      sleep quiet_ms
      on_line io_error line.reset_input_buffer
      on_line io_error (line.write text bytes)

    measured : String → Byte → String → Exec (Bus D) Unit
    measured addr extra_wake_time output = do
      bus_write (addr +++ "C!") (tail_of mode extra_wake_time)
      on_line parse_error (line.scan_output output)

    -- The wait ends before the deferred unlock runs.
    unfoldable pub concurrent_measurement : String → Byte → String → ℕ → Exec (Bus D) Unit
    unfolding measured
    concurrent_measurement addr extra_wake_time output wait =
        with_bus (do measured addr extra_wake_time output; sleep wait)

    -- The outer loop over the command numbers that are left.
    unfoldable pub read_data :
        ℕ → String → Byte → ℕ → List String → List Float64 → Exec (Bus D) (Option (List Float64))
    unfolding then_values
    read_data fuel addr extra_wake_time expected [] values = pure (some values)
    read_data fuel addr extra_wake_time expected (number ∷ rest) values =
        if leb expected (length values) then pure (some values) else (do
          bus_write (addr +++ ("D" +++ (number +++ "!"))) (tail_of mode extra_wake_time)
          on_line io_error (line.discard 1)
          o ← read_reply line fuel 0 values
          then_values (read_data fuel addr extra_wake_time expected rest) o)

    unfoldable pub get_data : ℕ → String → Byte → ℕ → Exec (Bus D) (Option (List Float64))
    unfolding check_number
    get_data fuel addr extra_wake_time expected = with_bus (do
      o ← read_data fuel addr extra_wake_time expected command_numbers []
      check_number expected o)
