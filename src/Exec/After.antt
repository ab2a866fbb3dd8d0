-- ===== src/Exec/After.antt =====
-- What holds after an action that worked.
use tidegauge_backend.Exec.{Exec, Result, ok, err, continue, ◌>>=◌}

-- What holds of the value and the state where an action worked.
abbrev pub After : {S A : Type 0} → (A → S → Type 0) → Result A × S → Type 0
After Q (ok a, s) = Q a s
After Q (err e, s) = Unit

module _ {S A B : Type 0} (Q : A → S → Type 0) (R : B → S → Type 0) where
  pub bind-After :
      (m : Exec S A) (f : A → Exec S B) (s : S)
      → After Q (m s)
      → ((a : A) (s' : S) → Q a s' → After R (f a s'))
      → After R ((m >>= f) s)
  unfolding ◌>>=◌
  bind-After m f s h next = split (m s).0 (m s).1 h
    where
      split : (r : Result A) (s' : S) → After Q (r, s') → After R (continue r f s')
      split (ok a) s' q = next a s' q
      split (err e) s' q = tt
