-- ===== src/Common/Run.antt =====
-- How a C function can end: with a value, by a failed `assert`, an `exit` or a
-- fault, or not at all.
use mathlib.Core.Path.{◌≡◌, refl, ap}

-- `aborted` is a failed `assert`, `exit` or a fault; `spinning` a busy wait that only another thread could end.
pub data Run {ℓ} (A : Type ℓ) : Type ℓ where
  done : A → Run A
  aborted spinning : Run A

infixl 5 ◌>>=◌
abbrev pub ◌>>=◌ {ℓ κ} : {A : Type ℓ} {B : Type κ} → Run A → (A → Run B) → Run B
done a >>= f = f a
aborted >>= f = aborted
spinning >>= f = spinning

-- the value of a run, or `d` when it has none
abbrev pub value_or {ℓ} : {A : Type ℓ} → A → Run A → A
value_or d (done a) = a
value_or d r = d

pub done-inj {ℓ} : {A : Type ℓ} {a b : A} → done a ≡ done b → a ≡ b
done-inj {a = a} e = ap (value_or a) e

-- A sequence that ends had a first part that ended.
pub bind-done {ℓ κ} :
    {A : Type ℓ} {B : Type κ} (r : Run A) (f : A → Run B) {b : B}
    → (r >>= f) ≡ done b
    → (a : A) × (r ≡ done a) × (f a ≡ done b)
bind-done (done a) f e = (a, refl, e)
bind-done aborted f e = absurd cc
bind-done spinning f e = absurd cc
