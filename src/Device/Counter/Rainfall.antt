-- ===== src/Device/Counter/Rainfall.antt =====
-- What the counter of tide_client/device/i2c_pcf8583.go is read as.
use Prim.Native.Nat.{bit_and, bit_or}
use tidegauge_backend.Prelude.{
  ℕ, zero, suc, ◌+◌, ◌*◌, ◌/◌, ◌%◌, ◌^◌, ◌<◌, ◌≡◌, refl, ◌∙◌, ap, Bool, true, false, List, [], ◌∷◌,
  none, some, arith, ◌⊎◌, inl, inr, nat_eq, nat_eq_iff, if◌then◌else◌, ◌==◌, nat_keys,
}
use tidegauge_backend.Exec.{Result, Result-cases, ok, pure, ◌>>=◌, ignoring, attempt}
use tidegauge_backend.Device.Bytes.{Byte, byte_at, passes_below, passes_below_lem}
use tidegauge_backend.Device.Counter.{
  I2cDev, bcd_to_byte, byte_to_bcd, get_register, set_register, count_of, get_count, set_count, job,
  reported, location_counter,
}

bcd_table : passes_below 100 (λ b. nat_eq (bcd_to_byte (byte_to_bcd b)) b) ≡ true
unfolding passes_below bcd_to_byte byte_to_bcd
bcd_table = refl

bcd_to_byte-byte_to_bcd : (b : ℕ) → b < 100 → bcd_to_byte (byte_to_bcd b) ≡ b
bcd_to_byte-byte_to_bcd b below =
    (nat_eq_iff _ b).0
      (passes_below_lem 100 b (λ c. nat_eq (bcd_to_byte (byte_to_bcd c)) c) bcd_table below)

bcd_to_byte-bounded : (b : Byte) → bcd_to_byte b < 256
unfolding bcd_to_byte
bcd_to_byte-bounded b = omega arith

-- The registers of a chip: `write` of an address and bytes puts the bytes from there on.
abbrev pub stored : ℕ → List Byte → (ℕ → Byte) → ℕ → Byte
stored at [] r = r
stored at (b ∷ bs) r = stored (suc at) bs (λ j. if at == j then b else r j)

abbrev pub loaded : ℕ → ℕ → (ℕ → Byte) → List Byte
loaded at zero r = []
loaded at (suc n) r = r at ∷ loaded (suc at) n r

-- The chip answers every transfer and holds registers, which a read leaves as they are. Only pulses
-- of the gauge, of which there are none between two transfers here, would change them.
pub record IsRegisterFile {D : Type 0} (dev : I2cDev D) (registers : D → ℕ → Byte) : Type 0 where
  pub tx_reads :
      (at : Byte) (n : ℕ) (s : D) → (dev.tx (at ∷ []) n s).0 ≡ ok (loaded at n (registers s))
  pub tx_keeps : (at : Byte) (n : ℕ) (s : D) → registers (dev.tx (at ∷ []) n s).1 ≡ registers s
  pub write_accepts : (at : Byte) (bs : List Byte) (s : D) → (dev.write (at ∷ bs) s).0 ≡ ok tt
  pub write_stores :
      (at : Byte) (bs : List Byte) (s : D)
      → registers (dev.write (at ∷ bs) s).1 ≡ stored at bs (registers s)

abbrev digits_of : ℕ → List Byte
digits_of count =
    byte_to_bcd (count % 100 % 256)
    ∷ byte_to_bcd (count / 100 % 100 % 256)
    ∷ byte_to_bcd (count / 10000 % 100 % 256)
    ∷ []

digit : (n : ℕ) → bcd_to_byte (byte_to_bcd (n % 100 % 256)) ≡ n % 100
digit n = bcd_to_byte-byte_to_bcd (n % 100 % 256) (omega arith) ∙ omega arith

count_of-digits_of : (count : ℕ) → count < 1000000 → count_of (digits_of count) ≡ count
unfolding count_of
count_of-digits_of count below =
    omega (arith, digit count, digit (count / 100), digit (count / 10000))

module _ {D : Type 0} (dev : I2cDev D) (registers : D → ℕ → Byte)
    (file : IsRegisterFile dev registers) where
  abbrev written : List Byte → D → D
  written bs s = (dev.write bs s).1

  get_register_lem :
      (at : Byte) (s : D) → get_register dev at s ≡ (ok (registers s at), (dev.tx (at ∷ []) 1 s).1)
  unfolding get_register ◌>>=◌
  get_register_lem at s = rw (file.tx_reads at 1 s) refl

  write_lem :
      (at : Byte) (bs : List Byte) (s : D) → dev.write (at ∷ bs) s ≡ (ok tt, written (at ∷ bs) s)
  write_lem at bs s =
      ap (λ (r : Result Unit). (r, written (at ∷ bs) s)) (file.write_accepts at bs s)

  -- The states of the chip after the four transfers of `setCount`.
  abbrev stopped : D → D
  stopped s = written (0 ∷ bit_or (registers s 0) 0x80 ∷ []) (dev.tx (0 ∷ []) 1 s).1

  abbrev counted : ℕ → D → D
  counted count s = written (1 ∷ digits_of count) (stopped s)

  abbrev resumed : ℕ → D → D
  resumed count s = written (0 ∷ bit_and (registers s 0) 0x7F ∷ []) (counted count s)

  set_count_lem : (count : ℕ) (s : D) → set_count dev count s ≡ (ok tt, resumed count s)
  unfolding set_count set_register ◌>>=◌
  set_count_lem count s =
      rw
        (
          get_register_lem 0 s,
          write_lem 0 (bit_or (registers s 0) 0x80 ∷ []) (dev.tx (0 ∷ []) 1 s).1,
          write_lem 1 (digits_of count) (stopped s),
          write_lem 0 (bit_and (registers s 0) 0x7F ∷ []) (counted count s),
        )
        refl

  -- The counter's registers hold the digits then.
  loaded-resumed : (count : ℕ) (s : D) → loaded 1 3 (registers (resumed count s)) ≡ digits_of count
  loaded-resumed count s =
      rw
        (
          file.write_stores 0 (bit_and (registers s 0) 0x7F ∷ []) (counted count s),
          file.write_stores 1 (digits_of count) (stopped s),
        )
        refl

  -- A count below a million that is set is the count that is read next.
  pub get_count-set_count :
      (count : ℕ) (s : D)
      → count < 1000000
      → (set_count dev count >>= (λ _. get_count dev)) s
        ≡ (ok count, (dev.tx (location_counter ∷ []) 3 (set_count dev count s).1).1)
  unfolding get_count ◌>>=◌
  get_count-set_count count s below =
      rw
        (
          set_count_lem count s,
          file.tx_reads 1 3 (resumed count s),
          loaded-resumed count s,
          count_of-digits_of count below,
        )
        refl

-- The count of three registers in unbounded numbers.
abbrev pub exact_count : List Byte → ℕ
exact_count bytes =
    bcd_to_byte (byte_at 0 bytes)
    + bcd_to_byte (byte_at 1 bytes) * 100
    + bcd_to_byte (byte_at 2 bytes) * 10000

exact_count-bounded : (bytes : List Byte) → exact_count bytes * 2 < 2 ^ 31
exact_count-bounded bytes = omega (
  arith,
  bcd_to_byte-bounded (byte_at 0 bytes),
  bcd_to_byte-bounded (byte_at 1 bytes),
  bcd_to_byte-bounded (byte_at 2 bytes),
)

count_of-exact : (bytes : List Byte) → count_of bytes ≡ exact_count bytes
unfolding count_of
count_of-exact bytes = omega (arith, exact_count-bounded bytes)

module _ {D : Type 0} (dev : I2cDev D) (reset_c : Bool) where
  reported_lem :
      (bytes : List Byte) (s : D)
      → (reported dev reset_c (ok (count_of bytes)) s).0 ≡ ok (some (exact_count bytes * 2))
  unfolding reported ignoring pure
  reported_lem bytes s =
      let e : count_of bytes * 2 % 2 ^ 32 ≡ exact_count bytes * 2 =
        omega (arith, exact_count-bounded bytes, count_of-exact bytes) in
      rw e (given reset_c)
    where
      given :
          (b : Bool)
          → ((if b
                then ignoring (set_count dev 0) (pure (some (exact_count bytes * 2)))
                else pure (some (exact_count bytes * 2)))
              s).0
            ≡ ok (some (exact_count bytes * 2))
      given true = refl
      given false = refl

  -- Whatever the chip answers, a reading of the rain gauge either gives no value or twice the count of
  -- the three bytes read: neither the sum nor its double leaves the range of `int32`.
  pub job-exact :
      (s : D)
      → ((job dev reset_c s).0 ≡ ok none)
        ⊎ ((bytes : List Byte) × ((dev.tx (location_counter ∷ []) 3 s).0 ≡ ok bytes)
            × ((job dev reset_c s).0 ≡ ok (some (exact_count bytes * 2)))
            × (exact_count bytes * 2 < 2 ^ 31))
  unfolding job get_count ◌>>=◌ attempt
  job-exact s = elim (Result-cases (dev.tx (location_counter ∷ []) 3 s).0) [
    | inl (e, failed) ↦ inl (rw failed refl)
    | inr (bytes, read) ↦ inr (
      bytes,
      read,
      rw read (reported_lem bytes (dev.tx (location_counter ∷ []) 3 s).1),
      exact_count-bounded bytes,
    )
  ]
