-- ===== src/Daemon/Changes/Tracked.antt =====
-- The shape that `_check_bgp_changes` and `_check_link_changes` of main.py share: a loop over a
-- dict that compares each entry with the last one seen, and remembers it.
use sonic_watchtower.Prelude.{
  ℕ, ◌+◌, String, ◌≡◌, refl, ◌∙◌, ap, sym, Bool, true, false, not, Option, none, some, [], ◌∷◌,
  arith, ◌==◌, eq_iff, if◌then◌else◌,
}
use sonic_watchtower.Prelude.Dict.{Dict, lookup, has_key, NodupKeys, lookup-has_key}
use sonic_watchtower.Prelude.Exec.{Exec, ok, for_each, for_each_ok, for_each_step}

-- A state that was known and is another now.
abbrev pub moved : Option String → String → Bool
moved none new = false
moved (some old) new = not (old == new)

module _ {V : Type 0} (state_of : V → String) where
  -- The last states once the entries are seen.
  abbrev pub seen_state : String → Dict V → Dict String → Option String
  seen_state j xs old = elim (lookup j xs) [ none ↦ lookup j old | some v ↦ some (state_of v) ]

  -- How many entries have moved.
  unfoldable pub moved_in : Dict String → Dict V → ℕ
  moved_in old [] = 0
  moved_in old ((k, v) ∷ xs) =
      (if moved (lookup k old) (state_of v) then 1 else 0) + moved_in old xs

  -- Every entry's state is the last one.
  abbrev pub AllSeen : Dict String → Dict V → Type 0
  AllSeen old [] = Unit
  AllSeen old ((k, v) ∷ xs) = (lookup k old ≡ some (state_of v)) × AllSeen old xs

  moved_in-cong :
      (old new : Dict String) (xs : Dict V)
      → ((j : String) → has_key j xs ≡ true → lookup j old ≡ lookup j new)
      → moved_in old xs ≡ moved_in new xs
  unfolding moved_in has_key
  moved_in-cong old new [] h = refl
  moved_in-cong old new ((k, v) ∷ xs) h = rw (h k (ground (arith, eq_iff k k))) (
      ap (λ n. (if moved (lookup k new) (state_of v) then 1 else 0) + n)
        (moved_in-cong old new xs (λ j p. h j (ground (arith, p)))))

  seen_first :
      (k : String) (v : V) (j : String) (xs : Dict V) (old new : Dict String)
      → has_key k xs ≡ false
      → lookup j new ≡ (if k == j then some (state_of v) else lookup j old)
      → seen_state j xs new ≡ seen_state j ((k, v) ∷ xs) old
  unfolding lookup
  seen_first k v j xs old new fresh e = ground (arith, e, lookup-has_key j xs, eq_iff k j, fresh)

  pub AllSeen-of :
      (old now : Dict String) (xs : Dict V)
      → NodupKeys xs
      → ((j : String) → has_key j xs ≡ true → lookup j now ≡ seen_state j xs old)
      → AllSeen now xs
  unfolding lookup has_key
  AllSeen-of old now [] u h = tt
  AllSeen-of old now ((k, v) ∷ xs) (fresh, u) h = (
    h k (ground (arith, eq_iff k k)) ∙ ground (arith, eq_iff k k),
    AllSeen-of old now xs u (λ j p. h j (ground (arith, p)) ∙ ground (arith, p, fresh, eq_iff k j)),
  )

module _ {S V : Type 0} (state_of : V → String) (last : S → Dict String) where
  -- The round of an entry without an exception leaves its state as the last one.
  abbrev pub Remembers : (String × V → Exec S (Unit {0})) → Type 0
  Remembers body =
      (k : String) (v : V) (j : String) (s : S)
      → (body (k, v) s).0 ≡ ok tt
      → lookup j (last (body (k, v) s).1)
        ≡ (if k == j then some (state_of v) else lookup j (last s))

  -- The round of an entry whose state is the last one does nothing.
  abbrev pub Settles : (String × V → Exec S (Unit {0})) → Type 0
  Settles body =
      (k : String) (v : V) (s : S)
      → lookup k (last s) ≡ some (state_of v)
      → body (k, v) s ≡ (ok tt, s)

  -- The round of an entry without an exception adds one to a size if the state has moved.
  abbrev pub Counts : (S → ℕ) → (String × V → Exec S (Unit {0})) → Type 0
  Counts size body =
      (k : String) (v : V) (s : S)
      → (body (k, v) s).0 ≡ ok tt
      → size (body (k, v) s).1 ≡ (if moved (lookup k (last s)) (state_of v) then 1 else 0) + size s

  module _ (body : String × V → Exec S (Unit {0})) where
    pub for_each-Remembers :
        Remembers body
        → (xs : Dict V) (s : S) (j : String) → NodupKeys xs
        → (for_each xs body s).0 ≡ ok tt
        → lookup j (last (for_each xs body s).1) ≡ seen_state state_of j xs (last s)
    unfolding for_each lookup
    for_each-Remembers r [] s j u h = refl
    for_each-Remembers r ((k, v) ∷ xs) s j (fresh, u) h =
        let (first, rest) = for_each_ok (k, v) xs body s h in
        let after : S = (body (k, v) s).1 in
        let ended : (for_each xs body after).0 ≡ ok tt = sym (ap (λ p. p.0) rest) ∙ h in
        ap (λ p. lookup j (last p.1)) rest
        ∙ for_each-Remembers r xs after j u ended
        ∙ seen_first state_of k v j xs (last s) (last after) fresh (r k v j s first)

    pub for_each-AllSeen :
        Settles body
        → (xs : Dict V) (s : S) → AllSeen state_of (last s) xs
        → for_each xs body s ≡ (ok tt, s)
    unfolding for_each
    for_each-AllSeen t [] s a = refl
    for_each-AllSeen t ((k, v) ∷ xs) s (now, a) =
        for_each_step (k, v) xs body s s (t k v s now) ∙ for_each-AllSeen t xs s a

    pub for_each-Counts :
        (size : S → ℕ)
        → Remembers body
        → Counts size body
        → (xs : Dict V) (s : S) → NodupKeys xs
        → (for_each xs body s).0 ≡ ok tt
        → size (for_each xs body s).1 ≡ moved_in state_of (last s) xs + size s
    unfolding for_each moved_in
    for_each-Counts size r c [] s u h = omega arith
    for_each-Counts size r c ((k, v) ∷ xs) s (fresh, u) h =
        let (first, rest) = for_each_ok (k, v) xs body s h in
        let after : S = (body (k, v) s).1 in
        let ended : (for_each xs body after).0 ≡ ok tt = sym (ap (λ p. p.0) rest) ∙ h in
        let same : moved_in state_of (last after) xs ≡ moved_in state_of (last s) xs =
          moved_in-cong state_of (last after) (last s) xs
            (λ j p. r k v j s first ∙ ground (arith, fresh, p, eq_iff k j)) in
        ap (λ p. size p.1) rest
        ∙ omega (arith, for_each-Counts size r c xs after u ended, same, c k v s first)
