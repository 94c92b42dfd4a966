-- ===== src/Prelude/Dict.antt =====
-- Python's `dict` with text keys, in insertion order: an assignment to a present key keeps its
-- place. Clients go by the laws of reading after writing.
use sonic_watchtower.Prelude.{
  String, ◌≡◌, refl, ap, Bool, false, ◌||◌, Option, none, some, List, [], ◌∷◌, arith, ◌==◌, eq_iff,
  if◌then◌else◌, Bool-cases, inl, inr,
}

abbrev pub Dict {ℓ} : Type ℓ → Type ℓ
Dict V = List (String × V)

module _ {ℓ} {V : Type ℓ} where
  -- `d.get(k)`
  unfoldable pub lookup : String → Dict V → Option V
  lookup k [] = none
  lookup k ((j, v) ∷ d) = if j == k then some v else lookup k d

  -- `d.get(k, default)`
  abbrev pub get_or : String → V → Dict V → V
  get_or k v d = elim (lookup k d) [ none ↦ v | some w ↦ w ]

  -- `d[k] = v`
  unfoldable pub insert : String → V → Dict V → Dict V
  insert k v [] = (k, v) ∷ []
  insert k v ((j, w) ∷ d) = if j == k then (j, v) ∷ d else (j, w) ∷ insert k v d

  -- `del d[k]`, `d.pop(k, None)`
  unfoldable pub erase : String → Dict V → Dict V
  erase k [] = []
  erase k ((j, w) ∷ d) = let rest = erase k d in if j == k then rest else (j, w) ∷ rest

  -- `k in d`
  unfoldable pub has_key : String → Dict V → Bool
  has_key k [] = false
  has_key k ((j, _) ∷ d) = j == k || has_key k d

  -- No key twice, which every Python `dict` has.
  abbrev pub NodupKeys : Dict V → Type 0
  NodupKeys [] = Unit
  NodupKeys ((k, _) ∷ d) = (has_key k d ≡ false) × NodupKeys d

  pub lookup-insert :
      (k j : String) (v : V) (d : Dict V)
      → lookup j (insert k v d) ≡ (if k == j then some v else lookup j d)
  unfolding lookup insert
  lookup-insert k j v [] = refl
  lookup-insert k j v ((i, w) ∷ d) =
      ground (arith, eq_iff k j, eq_iff i k, eq_iff i j, lookup-insert k j v d)

  pub has_key-insert :
      (k j : String) (v : V) (d : Dict V) → has_key j (insert k v d) ≡ (k == j || has_key j d)
  unfolding has_key insert
  has_key-insert k j v [] = refl
  has_key-insert k j v ((i, w) ∷ d) =
      ground (arith, eq_iff k j, eq_iff i k, eq_iff i j, has_key-insert k j v d)

  pub lookup-erase :
      (k j : String) (d : Dict V) → lookup j (erase k d) ≡ (if k == j then none else lookup j d)
  unfolding lookup erase
  lookup-erase k j [] = ground arith
  lookup-erase k j ((i, w) ∷ d) =
      ground (arith, eq_iff k j, eq_iff i k, eq_iff i j, lookup-erase k j d)

  pub has_key-erase :
      (k j : String) (d : Dict V) → has_key j (erase k d) ≡ (if k == j then false else has_key j d)
  unfolding has_key erase
  has_key-erase k j [] = ground arith
  has_key-erase k j ((i, w) ∷ d) =
      ground (arith, eq_iff k j, eq_iff i k, eq_iff i j, has_key-erase k j d)

  pub has_key-lookup : (k : String) (d : Dict V) → lookup k d ≡ none → has_key k d ≡ false
  unfolding lookup has_key
  has_key-lookup k [] h = refl
  has_key-lookup k ((j, v) ∷ d) h = ground (arith, has_key-lookup k d)

  pub lookup-has_key : (k : String) (d : Dict V) → has_key k d ≡ false → lookup k d ≡ none
  unfolding lookup has_key
  lookup-has_key k [] h = refl
  lookup-has_key k ((j, v) ∷ d) h = ground (arith, lookup-has_key k d)

  pub insert-NodupKeys : (k : String) (v : V) (d : Dict V) → NodupKeys d → NodupKeys (insert k v d)
  unfolding insert has_key
  insert-NodupKeys k v [] u = (refl, tt)
  insert-NodupKeys k v ((j, w) ∷ d) (fresh, u) = elim (Bool-cases (j == k)) [
    | inl same ↦ rw same (fresh, u)
    | inr other ↦
        rw other
          (ground (arith, has_key-insert k j v d, eq_iff j k, eq_iff k j), insert-NodupKeys k v d u)
  ]

  pub erase-NodupKeys : (k : String) (d : Dict V) → NodupKeys d → NodupKeys (erase k d)
  unfolding erase
  erase-NodupKeys k [] u = tt
  erase-NodupKeys k ((j, w) ∷ d) (fresh, u) = elim (Bool-cases (j == k)) [
    | inl same ↦ rw same (erase-NodupKeys k d u)
    | inr other ↦ rw other (ground (arith, has_key-erase k j d, eq_iff k j), erase-NodupKeys k d u)
  ]

  -- Writing what is there already changes nothing.
  pub insert_same : (k : String) (v : V) (d : Dict V) → lookup k d ≡ some v → insert k v d ≡ d
  unfolding insert lookup
  insert_same k v [] h = cc h
  insert_same k v ((j, w) ∷ d) h = elim (Bool-cases (j == k)) [
    | inl same ↦ rw same (let e : some w ≡ some v = rw same at h in ground (arith, e))
    | inr other ↦ rw other (ap (λ rest. (j, w) ∷ rest) (insert_same k v d (rw other at h)))
  ]

pub ruleset dict_laws = (lookup-insert, lookup-erase, has_key-insert, has_key-erase)
