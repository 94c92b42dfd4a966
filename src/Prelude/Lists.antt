-- ===== src/Prelude/Lists.antt =====
-- Lists with native lengths: `len`, comprehensions with a condition, sorting, the last entries.
use Prim.Native.Nat.{ℕ, zero, suc, ◌+◌}
use mathlib.Core.Path.{◌≡◌, refl, ap, ◌∙◌}
use mathlib.Core.Logic.{◌⊎◌, inl, inr}
use mathlib.Core.Bool.{Bool, true, false, ◌||◌, ◌&&◌}
use mathlib.Core.List.{List, [], ◌∷◌, ◌++◌}
use native.Mathlib.Omega.{arith}
use sonic_watchtower.Prelude.Tests.{if◌then◌else◌, Bool-cases}

module _ {ℓ} {A : Type ℓ} where
  abbrev pub length : List A → ℕ
  length [] = 0
  length (x ∷ xs) = suc (length xs)

  abbrev pub drop : ℕ → List A → List A
  drop zero xs = xs
  drop (suc n) [] = []
  drop (suc n) (x ∷ xs) = drop n xs

  -- `xs[:n]`
  abbrev pub take : ℕ → List A → List A
  take zero xs = []
  take (suc n) [] = []
  take (suc n) (x ∷ xs) = x ∷ take n xs

  abbrev pub concat : List (List A) → List A
  concat [] = []
  concat (xs ∷ xss) = xs ++ concat xss

  pub length-append : (xs ys : List A) → length (xs ++ ys) ≡ length xs + length ys
  length-append [] ys = omega arith
  length-append (x ∷ xs) ys = omega (arith, length-append xs ys)

  -- `[x for x in xs if p(x)]`, and a `WHERE` clause.
  unfoldable pub select : (A → Bool) → List A → List A
  select p [] = []
  select p (x ∷ xs) = let rest = select p xs in if p x then x ∷ rest else rest

  unfoldable pub any : (A → Bool) → List A → Bool
  any p [] = false
  any p (x ∷ xs) = p x || any p xs

  -- How many entries pass the test: `COUNT(*)`.
  unfoldable pub count : (A → Bool) → List A → ℕ
  count p [] = 0
  count p (x ∷ xs) = (if p x then 1 else 0) + count p xs

  -- Stable insertion by a Boolean order.
  unfoldable pub insert_by : (A → A → Bool) → A → List A → List A
  insert_by le x [] = x ∷ []
  insert_by le x (y ∷ ys) = if le x y then x ∷ y ∷ ys else y ∷ insert_by le x ys

  -- `ORDER BY`; rows that the order does not tell apart stay in the order of insertion.
  unfoldable pub sort_by : (A → A → Bool) → List A → List A
  sort_by le [] = []
  sort_by le (x ∷ xs) = insert_by le x (sort_by le xs)

module _ {ℓ} {A : Type ℓ} where
  abbrev pub All : (A → Type 0) → List A → Type 0
  All P [] = Unit
  All P (x ∷ xs) = P x × All P xs

  -- Membership as a choice of a place.
  abbrev pub Any : (A → Type 0) → List A → Type 0
  Any P [] = ⊥
  Any P (x ∷ xs) = P x ⊎ Any P xs

module _ {ℓ} {A : Type ℓ} (P : A → Type 0) where
  pub All-append : (xs ys : List A) → All P xs → All P ys → All P (xs ++ ys)
  All-append [] ys hx hy = hy
  All-append (x ∷ xs) ys hx hy = (hx.0, All-append xs ys hx.1 hy)

  pub All-append_left : (xs ys : List A) → All P (xs ++ ys) → All P xs
  All-append_left [] ys h = tt
  All-append_left (x ∷ xs) ys h = (h.0, All-append_left xs ys h.1)

  pub All-append_right : (xs ys : List A) → All P (xs ++ ys) → All P ys
  All-append_right [] ys h = h
  All-append_right (x ∷ xs) ys h = All-append_right xs ys h.1

  -- What a condition lets through keeps a predicate.
  pub All-select : (p : A → Bool) (xs : List A) → All P xs → All P (select p xs)
  unfolding select
  All-select p [] h = tt
  All-select p (x ∷ xs) h = elim (Bool-cases (p x)) [
    | inl yes_x ↦ rw yes_x (h.0, All-select p xs h.1)
    | inr no_x ↦ rw no_x (All-select p xs h.1)
  ]

  pub All-insert_by :
      (le : A → A → Bool) (x : A) (ys : List A) → P x → All P ys → All P (insert_by le x ys)
  unfolding insert_by
  All-insert_by le x [] p h = (p, tt)
  All-insert_by le x (y ∷ ys) p h = elim (Bool-cases (le x y)) [
    | inl here ↦ rw here (p, h)
    | inr later ↦ rw later (h.0, All-insert_by le x ys p h.1)
  ]

  pub All-sort_by : (le : A → A → Bool) (xs : List A) → All P xs → All P (sort_by le xs)
  unfolding sort_by
  All-sort_by le [] h = tt
  All-sort_by le (x ∷ xs) h = All-insert_by le x (sort_by le xs) h.0 (All-sort_by le xs h.1)

module _ {ℓ} {A : Type ℓ} where
  pub All-map_of : (P Q : A → Type 0) → ((x : A) → P x → Q x) → (xs : List A) → All P xs → All Q xs
  All-map_of P Q f [] h = tt
  All-map_of P Q f (x ∷ xs) h = (f x h.0, All-map_of P Q f xs h.1)

  -- Every selected entry passes the test.
  pub select-All : (p : A → Bool) (xs : List A) → All (λ x. p x ≡ true) (select p xs)
  unfolding select
  select-All p [] = tt
  select-All p (x ∷ xs) = elim (Bool-cases (p x)) [
    | inl yes_x ↦ rw yes_x (yes_x, select-All p xs)
    | inr no_x ↦ rw no_x (select-All p xs)
  ]

  pub count-insert_by :
      (q : A → Bool) (le : A → A → Bool) (x : A) (ys : List A)
      → count q (insert_by le x ys) ≡ count q (x ∷ ys)
  unfolding count insert_by
  count-insert_by q le x [] = refl
  count-insert_by q le x (y ∷ ys) = ground (arith, count-insert_by q le x ys)

  -- Sorting loses and adds nothing: each test is passed as often.
  pub count-sort_by :
      (q : A → Bool) (le : A → A → Bool) (xs : List A) → count q (sort_by le xs) ≡ count q xs
  unfolding count sort_by
  count-sort_by q le [] = refl
  count-sort_by q le (x ∷ xs) =
      count-insert_by q le x (sort_by le xs)
      ∙ ap (λ n. (if q x then 1 else 0) + n) (count-sort_by q le xs)

  pub count-select :
      (q p : A → Bool) (xs : List A) → count q (select p xs) ≡ count (λ x. p x && q x) xs
  unfolding count select
  count-select q p [] = refl
  count-select q p (x ∷ xs) = ground (arith, count-select q p xs)

  pub any_ext : (p q : A → Bool) → ((x : A) → p x ≡ q x) → (xs : List A) → any p xs ≡ any q xs
  unfolding any
  any_ext p q h [] = refl
  any_ext p q h (x ∷ xs) = ground (arith, h x, any_ext p q h xs)

  pub any-select : (q p : A → Bool) (xs : List A) → any q (select p xs) ≡ any (λ x. p x && q x) xs
  unfolding any select
  any-select q p [] = refl
  any-select q p (x ∷ xs) = ground (arith, any-select q p xs)

  any-insert_by :
      (q : A → Bool) (le : A → A → Bool) (x : A) (ys : List A)
      → any q (insert_by le x ys) ≡ (q x || any q ys)
  unfolding any insert_by
  any-insert_by q le x [] = refl
  any-insert_by q le x (y ∷ ys) = ground (arith, any-insert_by q le x ys)

  pub any-sort_by :
      (q : A → Bool) (le : A → A → Bool) (xs : List A) → any q (sort_by le xs) ≡ any q xs
  unfolding any sort_by
  any-sort_by q le [] = refl
  any-sort_by q le (x ∷ xs) =
      any-insert_by q le x (sort_by le xs) ∙ ap (λ c. q x || c) (any-sort_by q le xs)

  pub count-append : (q : A → Bool) (xs ys : List A) → count q (xs ++ ys) ≡ count q xs + count q ys
  unfolding count
  count-append q [] ys = omega arith
  count-append q (x ∷ xs) ys = omega (arith, count-append q xs ys)

  -- In order by a Boolean order, entry by entry.
  abbrev pub IsSorted : (A → A → Bool) → List A → Type 0
  IsSorted le [] = Unit
  IsSorted le (x ∷ xs) = All (λ y. le x y ≡ true) xs × IsSorted le xs

  pub IsSorted-weaken :
      (le ok : A → A → Bool)
      → ((x y : A) → le x y ≡ true → ok x y ≡ true)
      → (xs : List A) → IsSorted le xs
      → IsSorted ok xs
  IsSorted-weaken le ok h [] s = tt
  IsSorted-weaken le ok h (x ∷ xs) s =
      (All-map_of _ _ (λ y. h x y) xs s.0, IsSorted-weaken le ok h xs s.1)

  module _ (le : A → A → Bool) (total : (x y : A) → le x y ≡ false → le y x ≡ true)
      (trans : (x y z : A) → le x y ≡ true → le y z ≡ true → le x z ≡ true) where
    insert_by-IsSorted : (x : A) (ys : List A) → IsSorted le ys → IsSorted le (insert_by le x ys)
    unfolding insert_by
    insert_by-IsSorted x [] s = (tt, tt)
    insert_by-IsSorted x (y ∷ ys) s = elim (Bool-cases (le x y)) [
      | inl here ↦ rw here ((here, All-map_of _ _ (λ z h. trans x y z here h) ys s.0), s)
      | inr later ↦ rw later (
        All-insert_by (λ z. le y z ≡ true) le x ys (total x y later) s.0,
        insert_by-IsSorted x ys s.1,
      )
    ]

    pub sort_by-IsSorted : (xs : List A) → IsSorted le (sort_by le xs)
    unfolding sort_by
    sort_by-IsSorted [] = tt
    sort_by-IsSorted (x ∷ xs) = insert_by-IsSorted x (sort_by le xs) (sort_by-IsSorted xs)
