-- ===== src/Prelude/Exec.antt =====
-- Methods that change a state and may raise. What was written before a raise stays written, so the
-- state comes back beside the exception too.
use sonic_watchtower.Prelude.{◌⊎◌, inl, inr, ◌≡◌, refl, ap, List, [], ◌∷◌}

-- The exceptions of Python and of its `sqlite3`, `grpc` and file modules that the program meets.
pub data Error : Type 0 where
  integrity_error operational_error runtime_error value_error index_error zero_division_error
        os_error rpc_error :
      Error

pub data Result {ℓ} (A : Type ℓ) : Type ℓ where
  ok : A → Result A
  raise : Error → Result A

pub Result-cases {ℓ} :
    {A : Type ℓ} (r : Result A) → ((a : A) × (r ≡ ok a)) ⊎ ((e : Error) × (r ≡ raise e))
Result-cases (ok a) = inl (a, refl)
Result-cases (raise e) = inr (e, refl)

abbrev pub Exec {ℓ} : Type ℓ → Type ℓ → Type ℓ
Exec S A = S → Result A × S

module _ {ℓ} {S A : Type ℓ} where
  abbrev pub pure : A → Exec S A
  pure a s = (ok a, s)

  abbrev pub throw : Error → Exec S A
  throw e s = (raise e, s)

  abbrev pub gets : (S → A) → Exec S A
  gets f s = (ok (f s), s)

abbrev pub modify {ℓ} : {S : Type ℓ} → (S → S) → Exec S (Unit {ℓ})
modify f s = (ok tt, f s)

module _ {ℓ} {S A B : Type ℓ} where
  abbrev pub continue : Result A → (A → Exec S B) → Exec S B
  continue (ok a) f s = f a s
  continue (raise e) f s = (raise e, s)

  infixl 10 ◌>>=◌ ◌>>◌
  abbrev pub ◌>>=◌ : Exec S A → (A → Exec S B) → Exec S B
  ◌>>=◌ m f s = let (r, s') = m s in continue r f s'

  abbrev pub ◌>>◌ : Exec S A → Exec S B → Exec S B
  m >> n = m >>= λ _. n

-- An operation of a part of the state, as an operation of the whole.
abbrev pub zoom {ℓ} : {S T A : Type ℓ} → (S → T) → (S → T → S) → Exec T A → Exec S A
zoom get put m s = let (r, t) = m (get s) in (r, put s t)

-- `for x in xs: body(x)`; an exception ends the loop.
unfoldable pub for_each {ℓ} : {S A : Type ℓ} → List A → (A → Exec S (Unit {ℓ})) → Exec S (Unit {ℓ})
for_each [] body s = (ok tt, s)
for_each (x ∷ xs) body s =
    let (r, s') = body x s in elim r [ ok _ ↦ for_each xs body s' | raise e ↦ (raise e, s') ]

-- What every part of a chain leaves alone, the chain leaves alone, whether it raises or not.
pub continue_keeps {ℓ} :
    {S A B C : Type ℓ} (g : S → C) (r : Result A) (f : A → Exec S B) (s : S)
    → ((a : A) → g (f a s).1 ≡ g s)
    → g (continue r f s).1 ≡ g s
continue_keeps g (ok a) f s h = h a
continue_keeps g (raise e) f s h = refl

-- A loop that ends without an exception has done its first round, and the others after it.
pub for_each_ok {ℓ} :
    {S A : Type ℓ} (x : A) (xs : List A) (body : A → Exec S (Unit {ℓ})) (s : S)
    → (for_each (x ∷ xs) body s).0 ≡ ok tt
    → ((body x s).0 ≡ ok tt) × (for_each (x ∷ xs) body s ≡ for_each xs body (body x s).1)
unfolding for_each
for_each_ok x xs body s h = elim (Result-cases (body x s).0) [
  | inl (u, e) ↦ (rw e refl, rw (e, for_each) refl)
  | inr (e, raised) ↦ cc (rw (raised, for_each) at h)
]

pub for_each_step {ℓ} :
    {S A : Type ℓ} (x : A) (xs : List A) (body : A → Exec S (Unit {ℓ})) (s s' : S)
    → body x s ≡ (ok tt, s')
    → for_each (x ∷ xs) body s ≡ for_each xs body s'
unfolding for_each
for_each_step x xs body s s' h =
    ap (λ p. elim p.0 [ ok _ ↦ for_each xs body p.1 | raise e ↦ (raise e, p.1) ]) h

-- What every part of a chain preserves, the chain preserves, whether it raises or not.
pub continue_preserves {ℓ} :
    {S A B : Type ℓ} (P : S → Type 0) (r : Result A) (f : A → Exec S B) (s : S)
    → P s
    → ((a : A) → P (f a s).1)
    → P (continue r f s).1
continue_preserves P (ok a) f s p h = h a
continue_preserves P (raise e) f s p h = p

each_preserves {ℓ} :
    {S : Type ℓ} (P : S → Type 0) (rest : Exec S (Unit {ℓ})) (r : Result (Unit {ℓ})) (s : S)
    → P s
    → P (rest s).1
    → P (elim r as (λ _. Result (Unit {ℓ}) × S) [ ok _ ↦ rest s | raise e ↦ (raise e, s) ]).1
each_preserves P rest (ok u) s p q = q
each_preserves P rest (raise e) s p q = p

pub for_each_preserves {ℓ} :
    {S A : Type ℓ} (P : S → Type 0) (body : A → Exec S (Unit {ℓ}))
    → ((x : A) (s : S) → P s → P (body x s).1)
    → (xs : List A) (s : S) → P s
    → P (for_each xs body s).1
unfolding for_each
for_each_preserves P body h [] s p = p
for_each_preserves P body h (x ∷ xs) s p =
    let q = h x s p in
    each_preserves P (for_each xs body) (body x s).0 (body x s).1 q
      (for_each_preserves P body h xs (body x s).1 q)
