-- ===== src/Prelude/Fallible.antt =====
-- Python expressions that may raise: the exception ends the block that meets it.
use sonic_watchtower.Prelude.{◌≡◌, refl, Option, none, some}
use sonic_watchtower.Prelude.Exec.{Error, Result, ok, raise}

module _ {ℓ κ} {A : Type ℓ} {B : Type κ} where
  infixl 10 ◌>>=◌
  abbrev pub ◌>>=◌ : Result A → (A → Result B) → Result B
  ok a >>= f = f a
  raise e >>= f = raise e

  -- A block that ends without an exception met none on its way.
  pub bind-ok :
      (r : Result A) (f : A → Result B) (b : B)
      → (r >>= f) ≡ ok b
      → (a : A) × (r ≡ ok a) × (f a ≡ ok b)
  bind-ok (ok a) f b h = (a, refl, h)
  bind-ok (raise e) f b h = absurd (cc h)

-- A value, or the exception that its absence is.
abbrev pub required {ℓ} : {A : Type ℓ} → Error → Option A → Result A
required e none = raise e
required e (some a) = ok a
