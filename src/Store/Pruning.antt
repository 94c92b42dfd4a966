-- ===== src/Store/Pruning.antt =====
-- What `Journal.prune` of store/journal.py removes and keeps.
use sonic_watchtower.Prelude.{
  ℕ, ◌-◌, ◌*◌, ◌≤◌, String, ◌≡◌, refl, Bool, true, ◌&&◌, Option, none, some, List, [], ◌∷◌, arith,
  ◌==◌, leb, select,
}
use sonic_watchtower.Store.{Store, Finding, prune}
use sonic_watchtower.Store.Events.{get_recent, matches}
use sonic_watchtower.Store.Findings.{get_active, count_active}

-- A test that implies another finds the same entries among those that pass the other.
select-select {ℓ} :
    {A : Type ℓ} (p q : A → Bool)
    → ((x : A) → p x ≡ true → q x ≡ true)
    → (xs : List A) → select p (select q xs) ≡ select p xs
unfolding select
select-select p q h [] = refl
select-select p q h (x ∷ xs) = ground (arith, h x, select-select p q h xs)

module _ {F : Type 0} (now detail_days summary_days : ℕ) (s : Store F) where
  abbrev pruned : Store F
  pruned = prune now detail_days summary_days s

  active_kept :
      (p : Finding → Bool)
      → select (λ f. f.active && p f) pruned.findings ≡ select (λ f. f.active && p f) s.findings
  unfolding prune
  active_kept p = select-select _ _ (λ f h. ground arith) s.findings

  all_active_kept : select (λ f. f.active) pruned.findings ≡ select (λ f. f.active) s.findings
  unfolding prune
  all_active_kept = select-select _ _ (λ f h. ground arith) s.findings

  recent_kept :
      (severity : Option String) (seconds : ℕ)
      → seconds ≤ detail_days * 86400
      → select (λ e. leb (now - seconds) e.timestamp && matches severity e.severity) pruned.events
        ≡ select (λ e. leb (now - seconds) e.timestamp && matches severity e.severity) s.events
  unfolding prune
  recent_kept severity seconds within = select-select _ _ (λ e h. ground arith) s.events

  -- Pruning changes no list of active findings, with or without a severity, and no count of them;
  -- and no query for the recent events of a window within the days of detail.
  pub prune_keeps :
      (severity : Option String) (seconds : ℕ)
      → seconds ≤ detail_days * 86400
      → (get_active severity pruned ≡ get_active severity s)
        × (count_active pruned ≡ count_active s)
        × (get_recent now seconds severity pruned ≡ get_recent now seconds severity s)
  unfolding get_active count_active get_recent
  prune_keeps severity seconds within =
      (actives severity, rw all_active_kept, rw (recent_kept severity seconds within))
    where
      actives : (o : Option String) → get_active o pruned ≡ get_active o s
      actives none = rw all_active_kept
      actives (some w) = rw (all_active_kept, active_kept (λ f. f.severity == w))
