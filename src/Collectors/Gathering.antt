-- ===== src/Collectors/Gathering.antt =====
-- The loop that the collectors share: what the dictionary that they return holds.
use sonic_watchtower.Prelude.{
  String, ◌≡◌, refl, ap, sym, ◌∙◌, Bool, true, false, Option, none, some, List, [], ◌∷◌, arith,
  ◌==◌, eq_iff, inl, inr, ◌⊎◌, Bool-cases,
}
use sonic_watchtower.Prelude.Dict.{
  Dict, lookup, has_key, NodupKeys, lookup-insert, insert-NodupKeys,
}
use sonic_watchtower.Prelude.Exec.{Result, ok, raise, Error, Result-cases}
use sonic_watchtower.Collectors.{gather, put}

-- What a key gives, where it is read without an exception.
abbrev pub given {ℓ} : {A : Type ℓ} → Result (Option A) → Option A
given (ok found) = found
given (raise e) = none

-- What a name has after a key: the key's entry if the name is its own and there is one.
abbrev pub newer {ℓ} : {A : Type ℓ} → Bool → Option A → Option A → Option A
newer true (some a) before = some a
newer true none before = before
newer false found before = before

-- The entry that the last of the keys of a name was given, or what was there before.
abbrev pub entry_after {ℓ} :
    {K A : Type ℓ} → (K → String) → (K → Result (Option A)) → String → List K → Option A → Option A
entry_after name read n [] before = before
entry_after name read n (k ∷ ks) before =
    entry_after name read n ks (newer (name k == n) (given (read k)) before)

lookup-put {ℓ} :
    {A : Type ℓ} (k n : String) (found : Option A) (result : Dict A)
    → lookup n (put k found result) ≡ newer (k == n) found (lookup n result)
lookup-put k n none result = elim (Bool-cases (k == n)) [
  | inl same ↦ rw same refl
  | inr other ↦ rw other refl
]
lookup-put {A = A} k n (some a) result = elim (Bool-cases (k == n)) [
  | inl same ↦ rw same (rw same at (lookup-insert {V = A} k n a result))
  | inr other ↦ rw other (rw other at (lookup-insert {V = A} k n a result))
]

newer-none {ℓ} : {A : Type ℓ} (found : Option A) → newer true found none ≡ found
newer-none none = refl
newer-none (some a) = refl

put-NodupKeys {ℓ} :
    {A : Type ℓ} (k : String) (found : Option A) (result : Dict A)
    → NodupKeys result
    → NodupKeys (put k found result)
put-NodupKeys k none result u = u
put-NodupKeys k (some a) result u = insert-NodupKeys k a result u

module _ {ℓ} {K A : Type ℓ} (name : K → String) (read : K → Result (Option A)) where
  gather_step :
      (k : K) (ks : List K) (found : Option A) (result : Dict A)
      → read k ≡ ok found
      → gather name read (k ∷ ks) result ≡ gather name read ks (put (name k) found result)
  unfolding gather
  gather_step k ks found result e = rw e refl

  gather_raise :
      (k : K) (ks : List K) (err : Error) (result : Dict A)
      → read k ≡ raise err
      → gather name read (k ∷ ks) result ≡ raise err
  unfolding gather
  gather_raise k ks err result e = rw e refl

  -- What the loop returns has no name twice, and under each name what its last key gave.
  pub gather_lem :
      (n : String) (ks : List K) (before after : Dict A)
      → NodupKeys before
      → gather name read ks before ≡ ok after
      → NodupKeys after × (lookup n after ≡ entry_after name read n ks (lookup n before))
  unfolding gather
  gather_lem n [] before after u e =
      let same : before ≡ after = cc e in (rw same at u, ap (λ d. lookup n d) (sym same))
  gather_lem n (k ∷ ks) before after u e = elim (Result-cases (read k)) [
    | inl (found, given) ↦
        let (unique, entry) =
          gather_lem n ks (put (name k) found before) after (put-NodupKeys (name k) found before u)
            (sym (gather_step k ks found before given) ∙ e) in
        (
          unique,
          rw given (entry ∙ ap (entry_after name read n ks) (lookup-put (name k) n found before)),
        )
    | inr (err, raised) ↦ absurd (cc (sym (gather_raise k ks err before raised) ∙ e))
  ]

module _ {K A : Type 0} (name : K → String) (read : K → Result (Option A)) where
  -- A key of that name gave the entry.
  abbrev pub IsRead : String → A → Type 0
  IsRead n a = (k : K) × (name k ≡ n) × (read k ≡ ok (some a))

  newer-IsRead :
      (n : String) (k : K) (before : Option A) (a : A)
      → newer (name k == n) (given (read k)) before ≡ some a
      → (before ≡ some a) ⊎ IsRead n a
  newer-IsRead n k before a e = elim (Bool-cases (name k == n)) [
    | inr other ↦ inl (rw other at e)
    | inl same ↦
        let own : newer true (given (read k)) before ≡ some a = rw same at e in
        elim (Result-cases (read k)) [
          | inr (err, raised) ↦ inl (rw raised at own)
          | inl (none, got) ↦ inl (rw got at own)
          | inl (some b, got) ↦
              let is_a : b ≡ a = cc (rw got at own) in
              inr (k, (eq_iff (name k) n).0 same, got ∙ ap (λ c. ok (some c)) is_a)
        ]
  ]

  entry_after-IsRead :
      (n : String) (ks : List K) (before : Option A) (a : A)
      → entry_after name read n ks before ≡ some a
      → (before ≡ some a) ⊎ IsRead n a
  entry_after-IsRead n [] before a e = inl e
  entry_after-IsRead n (k ∷ ks) before a e =
      elim (entry_after-IsRead n ks (newer (name k == n) (given (read k)) before) a e) [
        | inl there ↦ newer-IsRead n k before a there
        | inr found ↦ inr found
      ]

  -- An entry of what the loop returns, from an empty dictionary, is what a key of that name gave.
  pub gather-IsRead :
      (n : String) (ks : List K) (after : Dict A) (a : A)
      → gather name read ks [] ≡ ok after
      → lookup n after ≡ some a
      → IsRead n a
  unfolding lookup
  gather-IsRead n ks after a e there =
      elim (entry_after-IsRead n ks none a
        (sym (gather_lem name read n ks [] after tt e).1 ∙ there)) [
          | inl absurd_ ↦ absurd (cc absurd_)
          | inr found ↦ found
        ]

module _ {ℓ} {V A : Type ℓ} (read : String × V → Result (Option A)) where
  -- A name that the keys do not hold keeps what was there.
  entry_after-absent :
      (n : String) (ks : Dict V) (before : Option A)
      → has_key n ks ≡ false
      → entry_after (λ k. k.0) read n ks before ≡ before
  unfolding has_key
  entry_after-absent n [] before h = refl
  entry_after-absent n ((k, v) ∷ ks) before h = elim (Bool-cases (k == n)) [
    | inl same ↦ absurd (ground (arith, h, same))
    | inr other ↦ rw other (entry_after-absent n ks before (rw other at h))
  ]

  -- Of keys that are those of a dictionary, each gives its own entry.
  pub entry_after_own :
      (n : String) (ks : Dict V)
      → NodupKeys ks
      → entry_after (λ k. k.0) read n ks none
        ≡ elim (lookup n ks) [ none ↦ none | some v ↦ given (read (n, v)) ]
  unfolding lookup
  entry_after_own n [] u = refl
  entry_after_own n ((k, v) ∷ ks) (fresh, u) = elim (Bool-cases (k == n)) [
    | inl same ↦
        let e : k ≡ n = (eq_iff k n).0 same in
        let gone : has_key n ks ≡ false = rw e at fresh in
        rw same (
          entry_after-absent n ks (newer true (given (read (k, v))) none) gone
          ∙ newer-none (given (read (k, v)))
          ∙ ap (λ j. given (read (j, v))) e)
    | inr other ↦ rw other (entry_after_own n ks u)
  ]

  -- Where the loop returns, every key was read.
  pub gather-reads :
      (n : String) (v : V) (ks : Dict V) (before after : Dict A)
      → lookup n ks ≡ some v
      → gather (λ k. k.0) read ks before ≡ ok after
      → (found : Option A) × (read (n, v) ≡ ok found)
  unfolding lookup
  gather-reads n v [] before after h e = absurd (cc h)
  gather-reads n v ((k, w) ∷ ks) before after h e = elim (Result-cases (read (k, w))) [
    | inl (found, got) ↦ elim (Bool-cases (k == n)) [
      | inl same ↦
          let w≡v : w ≡ v = cc (rw same at h) in
          (found, sym (ap (λ p. read p) (λ i. ((eq_iff k n).0 same i, w≡v i))) ∙ got)
      | inr other ↦
          gather-reads n v ks (put k found before) after (rw other at h)
            (sym (gather_step (λ j. j.0) read (k, w) ks found before got) ∙ e)
    ]
    | inr (err, raised) ↦
        absurd (cc (sym (gather_raise (λ j. j.0) read (k, w) ks err before raised) ∙ e))
  ]
