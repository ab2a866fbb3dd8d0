-- ===== src/Device/Sdi12/Finished.antt =====
-- How an exchange of tide_client/protocol/sdi12/session.go ends.
use mathlib.Core.Path.{subst, sym}
use tidegauge_backend.Prelude.{
  ℕ, zero, suc, ◌<◌, ◌≤◌, String, List, [], ◌∷◌, ◌++◌, Bool, true, false, Option, none, some, ◌≡◌,
  refl, inl, inr, arith, length, leb, nat_eq, nat_eq_iff, if◌then◌else◌, Bool-cases,
}
use tidegauge_backend.Types.{Error, Float64, is_timeout}
use tidegauge_backend.Exec.{
  Exec, Result, ok, err, Result-cases, pure, raise, continue, ◌>>=◌, attempt,
}
use tidegauge_backend.Device.Bytes.{Byte}
use tidegauge_backend.Device.Sdi12.{
  Line, Bus, Mode, io_error, parse_error, wrong_number, on_line, sleep, set_locked, unlock_bus,
  returned, with_bus, bus_write, reply_end, read_reply, then_values, read_data, check_number,
  command_numbers, get_data,
}

-- The end of an exchange that is an error or values, and not the end of the fuel.
abbrev pub IsOver : (List Float64 → Type 0) → Result (Option (List Float64)) → Type 0
IsOver P (err e) = Unit
IsOver P (ok none) = ⊥
IsOver P (ok (some values)) = P values

-- The line sends a bounded number of values before it ends a reply or falls silent: `pending` bounds
-- how many more can be read, and a value that is read is one less.
pub record IsFinite {D : Type 0} (line : Line D) (pending : D → ℕ) : Type 0 where
  pub peek_lem : (d : D) → pending (line.peek d).1 ≤ pending d
  pub scan_lem :
      (d : D) (f : Float64)
      → (line.scan_float d).0 ≡ ok f
      → pending (line.scan_float d).1 < pending d

module _ {D : Type 0} (P : List Float64 → Type 0) where
  -- After a call on the line that worked, what follows ends so.
  on_line-IsOver :
      {A : Type 0} (f : Error → Error) (m : Exec D A) (k : A → Exec (Bus D) (Option (List Float64)))
      (s : Bus D)
      → ((a : A) → (m s.line).0 ≡ ok a → IsOver P (k a (record s { line = (m s.line).1 })).0)
      → IsOver P ((on_line f m >>= k) s).0
  unfolding on_line ◌>>=◌
  on_line-IsOver f m k s next = elim (Result-cases (m s.line).0) [
    | inl (e, failed) ↦ rw failed tt
    | inr (a, worked) ↦ rw worked (next a worked)
  ]

  bus_write-IsOver :
      (line : Line D) (mode : Mode) (quiet_ms : ℕ) (text : String) (bytes : List Byte)
      (k : Unit → Exec (Bus D) (Option (List Float64))) (s : Bus D)
      → ((s' : Bus D) → IsOver P (k tt s').0)
      → IsOver P ((bus_write line mode quiet_ms text bytes >>= k) s).0
  unfolding bus_write sleep on_line ◌>>=◌
  bus_write-IsOver line mode quiet_ms text bytes k s next =
      elim (Result-cases (line.reset_input_buffer s.line).0) [
        | inl (e, failed) ↦ rw failed tt
        | inr (u, clear) ↦
            elim (Result-cases (line.write text bytes (line.reset_input_buffer s.line).1).0) [
              | inl (e, failed) ↦ rw (clear, failed) tt
              | inr (v, written) ↦ rw (clear, written) (next _)
            ]
      ]

abbrev Any : List Float64 → Type 0
Any values = Unit

module _ {D : Type 0} (line : Line D) (pending : D → ℕ) (finite : IsFinite line pending) where
  reply_end-IsOver :
      (n : ℕ) (values : List Float64) (s : Bus D) → IsOver Any (reply_end line n values s).0
  unfolding reply_end
  reply_end-IsOver n values s =
      on_line-IsOver Any io_error (line.discard 2) _ s (λ u done. given (nat_eq n 0) _)
    where
      given :
          (b : Bool) (s' : Bus D)
          → IsOver Any ((if b then raise (io_error wrong_number) else pure (some values)) s').0
      given true s' = unfold raise in tt
      given false s' = unfold pure in tt

  read_reply-IsOver :
      (fuel n : ℕ) (values : List Float64) (s : Bus D)
      → pending s.line < fuel
      → IsOver Any (read_reply line fuel n values s).0
  unfolding read_reply
  read_reply-IsOver zero n values s h = absurd (omega arith)
  read_reply-IsOver (suc fuel) n values s h = on_line-IsOver Any io_error line.peek _ s (λ b peeked.
      let d1 = (line.peek s.line).1 in
      let s1 : Bus D = record s { line = d1 } in
      elim (Bool-cases (nat_eq b 13)) [
        | inl ends ↦ rw ends (reply_end-IsOver n values s1)
        | inr more ↦ rw more (
            on_line-IsOver Any parse_error line.scan_float _ s1 (λ f scanned.
              read_reply-IsOver fuel (suc n) (values ++ f ∷ [])
                (record s1 { line = (line.scan_float d1).1 })
                (omega (arith, finite.scan_lem d1 f scanned, finite.peek_lem s.line))))
      ])

module _ {D : Type 0} (P : List Float64 → Type 0) where
  bind-IsOver :
      (m : Exec (Bus D) (Option (List Float64)))
      (k : Option (List Float64) → Exec (Bus D) (Option (List Float64))) (s : Bus D)
      → IsOver Any (m s).0
      → ((values : List Float64) (s' : Bus D) → IsOver P (k (some values) s').0)
      → IsOver P ((m >>= k) s).0
  unfolding ◌>>=◌
  bind-IsOver m k s over next = split (m s).0 (m s).1 over
    where
      split :
          (r : Result (Option (List Float64))) (s' : Bus D)
          → IsOver Any r
          → IsOver P (continue r k s').0
      split (err e) s' o = tt
      split (ok none) s' o = absurd o
      split (ok (some values)) s' o = next values s'

module _ {D : Type 0} where
  -- A locked bus is unlocked at the end, and the result is what it was.
  with_bus_lem :
      (m : Exec (Bus D) (Option (List Float64))) (s : Bus D)
      → ((with_bus m s).0 ≡ (m (record s { locked = true })).0) × ((with_bus m s).1.locked ≡ false)
  unfolding with_bus set_locked attempt unlock_bus returned sleep ◌>>=◌ pure
  with_bus_lem m s = elim (Result-cases (m (record s { locked = true })).0) [
    | inr (a, worked) ↦ rw worked (refl, refl)
    | inl (e, failed) ↦ elim (Bool-cases (is_timeout e)) [
      | inl late ↦ rw (failed, late) (refl, refl)
      | inr other ↦ rw (failed, other) (refl, refl)
    ]
  ]

module _ {D : Type 0} (line : Line D) (pending : D → ℕ) (finite : IsFinite line pending)
    (mode : Mode) (quiet_ms limit : ℕ) (bounded : (d : D) → pending d ≤ limit) where
  read_data-IsOver :
      (fuel : ℕ) (addr : String) (extra_wake_time : Byte) (expected : ℕ) (numbers : List String)
      (values : List Float64) (s : Bus D)
      → limit < fuel
      → IsOver Any
          (read_data line mode quiet_ms fuel addr extra_wake_time expected numbers values s).0
  unfolding read_data then_values pure
  read_data-IsOver fuel addr extra_wake_time expected [] values s h = tt
  read_data-IsOver fuel addr extra_wake_time expected (number ∷ rest) values s h =
      elim (Bool-cases (leb expected (length values))) [
        | inl enough ↦ rw enough tt
        | inr more ↦ rw more (
            bus_write-IsOver Any line mode quiet_ms _ _ _ s (λ s1.
              on_line-IsOver Any io_error (line.discard 1) _ s1 (λ u dropped.
                bind-IsOver Any (read_reply line fuel 0 values) _ _
                  (read_reply-IsOver line pending finite fuel 0 values _
                    (omega (arith, bounded (line.discard 1 s1.line).1)))
                  (λ more_values s2.
                    read_data-IsOver fuel addr extra_wake_time expected rest more_values s2 h))))
      ]

  check_number-IsOver :
      (expected : ℕ) (values : List Float64) (s : Bus D)
      → IsOver (λ vs. length vs ≡ expected) (check_number {D = D} expected (some values) s).0
  unfolding check_number pure raise
  check_number-IsOver expected values s = elim (Bool-cases (nat_eq (length values) expected)) [
    | inl same ↦ rw same ((nat_eq_iff (length values) expected).0 same)
    | inr other ↦ rw other tt
  ]

  -- Over a line that sends a bounded number of values without a line end or a silence, with fuel above
  -- that bound, GetData comes to an end after at most its ten commands: it returns an error or exactly
  -- as many values as it was asked for, and in each case the bus is free again.
  pub get_data-IsOver :
      (fuel : ℕ) (addr : String) (extra_wake_time : Byte) (expected : ℕ) (s : Bus D)
      → limit < fuel
      → IsOver
          (λ vs. length vs ≡ expected)
          (get_data line mode quiet_ms fuel addr extra_wake_time expected s).0
        × ((get_data line mode quiet_ms fuel addr extra_wake_time expected s).1.locked ≡ false)
  unfolding get_data
  get_data-IsOver fuel addr extra_wake_time expected s h =
      let locked : Bus D = record s { locked = true } in
      let over =
        bind-IsOver (λ vs. length vs ≡ expected)
          (read_data line mode quiet_ms fuel addr extra_wake_time expected command_numbers [])
          (check_number expected) locked
          (read_data-IsOver fuel addr extra_wake_time expected command_numbers [] locked h)
          (check_number-IsOver expected) in
      let result = with_bus_lem _ s in
      (subst (IsOver (λ vs. length vs ≡ expected)) (sym result.0) over, result.1)
