-- ===== src/Base/Run.antt =====
-- Code that may panic: a nil dereference or an index out of range ends the run.
use mathlib.Core.Path.{◌≡◌, refl}
use mathlib.Core.Logic.{◌⊎◌, inl, inr}

pub data Run (A : Type 0) : Type 0 where
  ok : A → Run A
  panic : Run A

infixl 5 ◌>>=◌ ◌>>◌
abbrev pub ◌>>=◌ : {A B : Type 0} → Run A → (A → Run B) → Run B
ok a >>= f = f a
panic >>= f = panic

abbrev pub ◌>>◌ : {B : Type 0} → Run (Unit {0}) → Run B → Run B
m >> k = m >>= λ _. k

pub Run-cases : {A : Type 0} (r : Run A) → (r ≡ panic) ⊎ ((a : A) × (r ≡ ok a))
Run-cases panic = inl refl
Run-cases (ok a) = inr (a, refl)

pub ok_of_not_panic : {A : Type 0} (r : Run A) → ¬ (r ≡ panic) → (a : A) × (r ≡ ok a)
ok_of_not_panic panic h = absurd (h refl)
ok_of_not_panic (ok a) h = (a, refl)
