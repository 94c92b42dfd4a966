-- ===== src/Store/Baselines/Keys.antt =====
-- The rows of the baselines by their primary key (store/baselines.py): lookups, and the replacement
-- of the row of a key.
use sonic_watchtower.Prelude.{
  ℕ, ◌+◌, String, ◌≡◌, refl, ap, sym, ◌∙◌, Bool, true, false, ◌&&◌, none, some, List, [], ◌∷◌, ◌++◌,
  arith, ◌==◌, eq_iff, if◌then◌else◌, any, Bool-cases, inl, inr,
}
use mathlib.Core.Path.{fun_ext}
use sonic_watchtower.Store.{Baseline}
use sonic_watchtower.Store.Baselines.{is_key, find_key, sum_samples, set_key}

module _ {F : Type 0} where
  -- The keys of two rows agree.
  abbrev pub same_key : Baseline F → Baseline F → Bool
  same_key a b = is_key a.port a.metric a.hour_of_week b

  -- No primary key twice.
  abbrev pub UniqueKeys : List (Baseline F) → Type 0
  UniqueKeys [] = Unit
  UniqueKeys (b ∷ bs) = (any (same_key b) bs ≡ false) × UniqueKeys bs

  module _ (port metric : String) (hour : ℕ) where
    -- Two rows with the key have the same key.
    same_key-is_key :
        (a b : Baseline F)
        → is_key port metric hour a ≡ true
        → same_key a b ≡ is_key port metric hour b
    same_key-is_key a b h = ground (arith, eq_iff a.port port, eq_iff a.metric metric)

    any-same_key :
        (a : Baseline F) (bs : List (Baseline F))
        → is_key port metric hour a ≡ true
        → any (same_key a) bs ≡ any (is_key port metric hour) bs
    any-same_key a bs h = ap (λ p. any p bs) (fun_ext (λ b. same_key-is_key a b h))

    pub find_key-none :
        (bs : List (Baseline F))
        → find_key port metric hour bs ≡ none
        → any (is_key port metric hour) bs ≡ false
    unfolding find_key any
    find_key-none [] h = refl
    find_key-none (b ∷ bs) h = ground (arith, find_key-none bs)

    pub find_key-append :
        (b : Baseline F) (bs : List (Baseline F))
        → find_key port metric hour (bs ++ b ∷ []) ≡ elim (find_key port metric hour bs) [
          | none ↦ if is_key port metric hour b then some b else none
          | some c ↦ some c
        ]
    unfolding find_key
    find_key-append b [] = refl
    find_key-append b (c ∷ bs) = ground (arith, find_key-append b bs)

    -- A key that another row does not have.
    pub find_key-set_key_ne :
        (p m : String) (h : ℕ) (new : Baseline F) (bs : List (Baseline F))
        → is_key port metric hour new ≡ false
        → ((b : Baseline F) → is_key p m h b ≡ true → is_key port metric hour b ≡ false)
        → find_key port metric hour (set_key p m h new bs) ≡ find_key port metric hour bs
    unfolding find_key set_key
    find_key-set_key_ne p m h new [] other apart = refl
    find_key-set_key_ne p m h new (b ∷ bs) other apart =
        ground (arith, other, apart b, find_key-set_key_ne p m h new bs other apart)

    pub find_key-set_key_self :
        (new b : Baseline F) (bs : List (Baseline F))
        → is_key port metric hour new ≡ true
        → find_key port metric hour bs ≡ some b
        → find_key port metric hour (set_key port metric hour new bs) ≡ some new
    unfolding find_key set_key
    find_key-set_key_self new b [] self found = cc
    find_key-set_key_self new b (c ∷ bs) self found =
        ground (arith, self, find_key-set_key_self new b bs self)

    pub find_key-is_key :
        (b : Baseline F) (bs : List (Baseline F))
        → find_key port metric hour bs ≡ some b
        → is_key port metric hour b ≡ true
    unfolding find_key
    find_key-is_key b [] found = cc
    find_key-is_key b (c ∷ bs) found = elim (Bool-cases (is_key port metric hour c)) [
      | inl here ↦
          let e : some c ≡ some b = rw here at found in let e' : c ≡ b = cc in rw (← e') here
      | inr later ↦ find_key-is_key b bs (rw later at found)
    ]

    set_key_absent :
        (new : Baseline F) (bs : List (Baseline F))
        → any (is_key port metric hour) bs ≡ false
        → set_key port metric hour new bs ≡ bs
    unfolding set_key any
    set_key_absent new [] h = refl
    set_key_absent new (b ∷ bs) h = ground (arith, set_key_absent new bs)

    -- One more sample in the one row of the key.
    pub sum_samples-set_key :
        (p m : String) (new b : Baseline F) (bs : List (Baseline F))
        → UniqueKeys bs
        → is_key port metric hour new ≡ true
        → new.sample_count ≡ b.sample_count + 1
        → find_key port metric hour bs ≡ some b
        → sum_samples p m (set_key port metric hour new bs)
          ≡ (if port == p && metric == m then 1 else 0) + sum_samples p m bs
    unfolding find_key set_key sum_samples
    sum_samples-set_key p m new b [] u self more found = cc
    sum_samples-set_key p m new b (c ∷ bs) u self more found =
        elim (Bool-cases (is_key port metric hour c)) [
          | inl here ↦
              let rest : set_key port metric hour new bs ≡ bs =
                set_key_absent new bs (sym (any-same_key c bs here) ∙ u.0) in
              rw (here, rest)
                (ground (
                  arith,
                  eq_iff c.port port,
                  eq_iff c.metric metric,
                  eq_iff new.port port,
                  eq_iff new.metric metric,
                  self,
                  more,
                ))
          | inr later ↦
              rw later
                (ground (arith, sum_samples-set_key p m new b bs u.1 self more (rw later at found)))
        ]

    -- A row with another key meets neither the new row nor what it replaces.
    same_key_apart :
        (a b : Baseline F)
        → is_key port metric hour a ≡ false
        → is_key port metric hour b ≡ true
        → same_key a b ≡ false
    same_key_apart a b other self = ground (
      arith,
      eq_iff a.port port,
      eq_iff a.metric metric,
      eq_iff b.port port,
      eq_iff b.metric metric,
      eq_iff b.port a.port,
      eq_iff b.metric a.metric,
    )

    any-set_key :
        (a new : Baseline F) (bs : List (Baseline F))
        → is_key port metric hour a ≡ false
        → is_key port metric hour new ≡ true
        → any (same_key a) bs ≡ false
        → any (same_key a) (set_key port metric hour new bs) ≡ false
    unfolding set_key any
    any-set_key a new [] other self h = refl
    any-set_key a new (b ∷ bs) other self h =
        ground (arith, same_key_apart a new other self, any-set_key a new bs other self)

    any-append_key :
        (a new : Baseline F) (bs : List (Baseline F))
        → is_key port metric hour a ≡ false
        → is_key port metric hour new ≡ true
        → any (same_key a) bs ≡ false
        → any (same_key a) (bs ++ new ∷ []) ≡ false
    unfolding any
    any-append_key a new [] other self h = ground (arith, same_key_apart a new other self)
    any-append_key a new (b ∷ bs) other self h = ground (arith, any-append_key a new bs other self)

    pub set_key-UniqueKeys :
        (new : Baseline F) (bs : List (Baseline F))
        → UniqueKeys bs
        → is_key port metric hour new ≡ true
        → UniqueKeys (set_key port metric hour new bs)
    unfolding set_key any
    set_key-UniqueKeys new [] u self = tt
    set_key-UniqueKeys new (b ∷ bs) u self = elim (Bool-cases (is_key port metric hour b)) [
      | inl here ↦
          let absent : any (is_key port metric hour) bs ≡ false =
            sym (any-same_key b bs here) ∙ u.0 in
          rw (here, set_key_absent new bs absent) (any-same_key new bs self ∙ absent, u.1)
      | inr later ↦
          rw later (any-set_key b new bs later self u.0, set_key-UniqueKeys new bs u.1 self)
    ]

    pub append-UniqueKeys :
        (new : Baseline F) (bs : List (Baseline F))
        → UniqueKeys bs
        → is_key port metric hour new ≡ true
        → any (is_key port metric hour) bs ≡ false
        → UniqueKeys (bs ++ new ∷ [])
    unfolding any
    append-UniqueKeys new [] u self absent = (refl, tt)
    append-UniqueKeys new (b ∷ bs) u self absent = (
      any-append_key b new bs (ground arith) self u.0,
      append-UniqueKeys new bs u.1 self (ground arith),
    )
