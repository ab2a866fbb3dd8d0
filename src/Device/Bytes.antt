-- ===== src/Device/Bytes.antt =====
-- Bytes, as numbers below 256, and a check of all values below a bound.
use tidegauge_backend.Prelude.{ℕ, zero, suc, ◌<◌, ◌≡◌, Bool, true, ◌&&◌, arith, List, [], ◌∷◌}

abbrev pub Byte : Type 0
Byte = ℕ

-- Every number below the bound passes.
unfoldable pub passes_below : ℕ → (ℕ → Bool) → Bool
passes_below zero test = true
passes_below (suc n) test = passes_below n test && test n

pub passes_below_lem :
    (n x : ℕ) (test : ℕ → Bool) → passes_below n test ≡ true → x < n → test x ≡ true
unfolding passes_below
passes_below_lem zero x test h below = absurd (omega arith)
passes_below_lem (suc n) x test h below = ground (arith, passes_below_lem n x test)

-- `data[i]` of a slice that was made long enough.
abbrev pub byte_at : ℕ → List Byte → Byte
byte_at i [] = 0
byte_at zero (b ∷ bs) = b
byte_at (suc i) (b ∷ bs) = byte_at i bs
