-- ===== src/Exec/Keeps.antt =====
-- Invariants of actions: one rule for each way in which an action is put together.
use tidegauge_backend.Prelude.{Bool, true, false, if◌then◌else◌}
use tidegauge_backend.Types.{Error}
use tidegauge_backend.Exec.{
  Result, ok, err, Exec, pure, raise, gets, wrapping, continue, ◌>>=◌, deferred, ignoring, attempt,
}

-- Whether it fails or not, the action leads from states of `P` to states of `P`.
pub record Keeps {S A : Type 0} (P : S → Type 0) (m : Exec S A) : Type 0 where
  pub at : (s : S) → P s → P (m s).1

module _ {S A : Type 0} {P : S → Type 0} where
  pub pure-Keeps : (a : A) → Keeps P (pure a)
  unfolding pure
  pure-Keeps a = record { at = λ s h. h }

  pub raise-Keeps : (e : Error) → Keeps P (raise {A = A} e)
  unfolding raise
  raise-Keeps e = record { at = λ s h. h }

  pub gets-Keeps : (f : S → A) → Keeps P (gets f)
  unfolding gets
  gets-Keeps f = record { at = λ s h. h }

  pub wrapping-Keeps : (f : Error → Error) (m : Exec S A) → Keeps P m → Keeps P (wrapping f m)
  unfolding wrapping
  wrapping-Keeps f m k = record { at = k.at }

  pub if-Keeps : (b : Bool) (m n : Exec S A) → Keeps P m → Keeps P n → Keeps P (if b then m else n)
  if-Keeps true m n km kn = km
  if-Keeps false m n km kn = kn

module _ {S A B : Type 0} {P : S → Type 0} where
  pub continue-Keeps :
      (r : Result A) (f : A → Exec S B) → ((a : A) → Keeps P (f a)) → Keeps P (continue r f)
  continue-Keeps (ok a) f k = k a
  continue-Keeps (err e) f k = record { at = λ s h. h }

  pub bind-Keeps :
      (m : Exec S A) (f : A → Exec S B) → Keeps P m → ((a : A) → Keeps P (f a)) → Keeps P (m >>= f)
  unfolding ◌>>=◌
  bind-Keeps m f km kf = record { at = λ s h. (continue-Keeps (m s).0 f kf).at (m s).1 (km.at s h) }

  pub deferred-Keeps :
      (c : Exec S B) (m : Exec S A) → Keeps P c → Keeps P m → Keeps P (deferred c m)
  unfolding deferred
  deferred-Keeps c m kc km = record { at = λ s h. kc.at (m s).1 (km.at s h) }

  pub ignoring-Keeps :
      (m : Exec S A) (n : Exec S B) → Keeps P m → Keeps P n → Keeps P (ignoring m n)
  unfolding ignoring
  ignoring-Keeps m n km kn = record { at = λ s h. kn.at (m s).1 (km.at s h) }

  pub attempt-Keeps :
      (m : Exec S A) (f : Result A → Exec S B)
      → Keeps P m
      → ((r : Result A) → Keeps P (f r))
      → Keeps P (attempt m f)
  unfolding attempt
  attempt-Keeps m f km kf = record { at = λ s h. (kf (m s).0).at (m s).1 (km.at s h) }

pub ruleset keeps_rules = (
  pure-Keeps, raise-Keeps, gets-Keeps, wrapping-Keeps, if-Keeps, bind-Keeps, deferred-Keeps,
  ignoring-Keeps, attempt-Keeps,
)
