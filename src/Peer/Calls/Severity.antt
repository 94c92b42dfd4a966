-- ===== src/Peer/Calls/Severity.antt =====
-- What `_get_current_severity` of peer/__init__.py says of the findings of the journal.
use sonic_watchtower.Prelude.{
  String, ◌≡◌, refl, ◌≢◌, Bool, List, [], ◌∷◌, arith, ltb, any, count, if◌then◌else◌,
}
use sonic_watchtower.Prelude.Dict.{get_or}
use sonic_watchtower.Store.{Store, Finding}
use sonic_watchtower.Store.Findings.{count_active}
use sonic_watchtower.Store.Findings.Lifecycle.{is_active_of, count_active_lem}
use sonic_watchtower.Peer.Calls.{current_severity}

count-any : (p : Finding → Bool) (fs : List Finding) → ltb 0 (count p fs) ≡ any p fs
unfolding count any
count-any p [] = refl
count-any p (f ∷ fs) = ground (arith, count-any p fs)

module _ {F : Type 0} (s : Store F) where
  -- Some active finding has this severity.
  abbrev pub is_raised : String → Bool
  is_raised severity = any (is_active_of severity) s.findings

  positive-count_active :
      (severity : String)
      → severity ≢ "total"
      → ltb 0 (get_or severity 0 (count_active s)) ≡ is_raised severity
  positive-count_active severity other =
      rw (count_active_lem s severity other).1 (count-any (is_active_of severity) s.findings)

  -- The severity that a switch reports of itself is the worst one that some active finding has, of
  -- the three of the schema, and "ok" if no active finding has one of them.
  pub current_severity_lem : current_severity s ≡ (
      if is_raised "critical"
      then "critical"
      else if is_raised "warning"
      then "warning"
      else if is_raised "info"
      then "info"
      else "ok")
  unfolding current_severity
  current_severity_lem =
      rw
        (
          positive-count_active "critical" (λ e. cc),
          positive-count_active "warning" (λ e. cc),
          positive-count_active "info" (λ e. cc),
        )
        refl
