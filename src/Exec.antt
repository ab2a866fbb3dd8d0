-- ===== src/Exec.antt =====
-- Go functions that change state and return an `error`: the state comes back beside the error too,
-- since what was done before an error stays done.
pub mod Keeps
pub mod After
use tidegauge_backend.Prelude.{◌≡◌, refl, ◌⊎◌, inl, inr}
use tidegauge_backend.Types.{Error}

pub data Result {ℓ} (A : Type ℓ) : Type ℓ where
  ok : A → Result A
  err : Error → Result A

-- To split on how a call ended, with the equation kept.
pub Result-cases :
    {A : Type 0} (r : Result A) → ((x : Error) × (r ≡ err x)) ⊎ ((a : A) × (r ≡ ok a))
Result-cases (ok a) = inr (a, refl)
Result-cases (err x) = inl (x, refl)

abbrev pub Exec : Type 0 → Type 0 → Type 0
Exec S A = S → Result A × S

abbrev pub relabel : {A : Type 0} → (Error → Error) → Result A → Result A
relabel f (ok a) = ok a
relabel f (err e) = err (f e)

module _ {S A : Type 0} where
  unfoldable pub pure : A → Exec S A
  pure a s = (ok a, s)

  unfoldable pub raise : Error → Exec S A
  raise e s = (err e, s)

  unfoldable pub gets : (S → A) → Exec S A
  gets f s = (ok (f s), s)

  -- `fmt.Errorf("text: %w", err)`.
  unfoldable pub wrapping : (Error → Error) → Exec S A → Exec S A
  wrapping f m s = let (r, s') = m s in (relabel f r, s')

unfoldable pub modify : {S : Type 0} → (S → S) → Exec S Unit
modify f s = (ok tt, f s)

module _ {S A B : Type 0} where
  abbrev pub continue : Result A → (A → Exec S B) → Exec S B
  continue (ok a) f s = f a s
  continue (err e) f s = (err e, s)

  infixl 10 ◌>>=◌ ◌>>◌
  -- With this the actions above are open too.
  unfoldable pub ◌>>=◌ : Exec S A → (A → Exec S B) → Exec S B
  unfolding pure raise gets wrapping modify
  ◌>>=◌ m f s = let (r, s') = m s in continue r f s'

  abbrev pub ◌>>◌ : Exec S A → Exec S B → Exec S B
  m >> n = m >>= λ _. n

  -- `defer cleanup()` around the rest of the body: the cleanup runs whatever the body returned, and
  -- its own result is dropped.
  unfoldable pub deferred : Exec S B → Exec S A → Exec S A
  deferred cleanup m s = let (r, s') = m s in (r, (cleanup s').1)

  -- `_, _ = m()`, and then the rest.
  unfoldable pub ignoring : Exec S A → Exec S B → Exec S B
  ignoring m n s = n (m s).1

  -- A branch on whether `m` failed: `if err := m(); err == nil { … } else { … }`.
  unfoldable pub attempt : Exec S A → (Result A → Exec S B) → Exec S B
  attempt m f s = let (r, s') = m s in f r s'

-- Binding is associative, on each state.
module _ {S A B C : Type 0} (f : A → Exec S B) (g : B → Exec S C) where
  continue_assoc :
      (r : Result A) (s : S)
      → continue (continue r f s).0 g (continue r f s).1 ≡ continue r (λ a. f a >>= g) s
  unfolding ◌>>=◌
  continue_assoc (ok a) s = refl
  continue_assoc (err e) s = refl

  pub bind_assoc : (m : Exec S A) (s : S) → ((m >>= f) >>= g) s ≡ (m >>= λ a. (f a >>= g)) s
  unfolding ◌>>=◌
  bind_assoc m s = continue_assoc (m s).0 (m s).1

module _ {S A B : Type 0} (f g : A → Exec S B) where
  -- What follows may be replaced by what does the same.
  pub bind_same :
      (m : Exec S A) (s : S) → ((a : A) (s' : S) → f a s' ≡ g a s') → (m >>= f) s ≡ (m >>= g) s
  unfolding ◌>>=◌
  bind_same m s h = split (m s).0 (m s).1
    where
      split : (r : Result A) (s' : S) → continue r f s' ≡ continue r g s'
      split (ok a) s' = h a s'
      split (err e) s' = refl
