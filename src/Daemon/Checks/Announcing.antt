-- ===== src/Daemon/Checks/Announcing.antt =====
-- What the calls that end every check of main.py do, on each branch.
use sonic_watchtower.Prelude.{
  ℕ, ◌+◌, String, ◌≡◌, refl, true, false, Option, some, List, [], ◌∷◌, ◌++◌, if◌then◌else◌,
  Bool-cases, inl, inr,
}
use sonic_watchtower.Prelude.Clock.{Moment}
use sonic_watchtower.Prelude.Exec.{ok, raise, integrity_error}
use sonic_watchtower.Store.{Finding, is_event_severity}
use sonic_watchtower.Store.Findings.{create, insert_finding, new_finding, generated_id, has_id}
use sonic_watchtower.Report.{FindingData}
use sonic_watchtower.Daemon.{Daemon, with_manager}
use sonic_watchtower.Daemon.Checks.{announce, create_finding, emit, share}

module _ {F : Type 0} where
  -- The daemon once the counter of ids has given a number out.
  abbrev pub counted : Daemon F → Daemon F
  counted d =
      with_manager
        (λ m. record m { store = record m.store { next_finding = m.store.next_finding + 1 } }) d

  -- The daemon with one more finding in its journal.
  abbrev pub filed : Finding → Daemon F → Daemon F
  filed f d =
      with_manager
        (λ m. record m { store = record m.store { findings = m.store.findings ++ f ∷ [] } }) d

  abbrev pub next_id : Moment → Daemon F → String
  next_id now d = generated_id now d.manager.store.next_finding

  create_finding-valid :
      (now : Moment) (related : Option (List ℕ)) (fd : FindingData) (d : Daemon F)
      → is_event_severity fd.severity ≡ true
      → has_id (next_id now d) d.manager.store ≡ false
      → create_finding now fd related d ≡ (
        ok (next_id now d),
        filed
            (new_finding now.seconds fd.severity fd.summary
              (some fd.detail)
              related
              (next_id now d))
            (counted d),
      )
  unfolding create_finding create insert_finding
  create_finding-valid now related fd d valid fresh = rw (valid, fresh) refl

  create_finding-taken :
      (now : Moment) (related : Option (List ℕ)) (fd : FindingData) (d : Daemon F)
      → has_id (next_id now d) d.manager.store ≡ true
      → create_finding now fd related d ≡ (raise integrity_error, counted d)
  unfolding create_finding create insert_finding
  create_finding-taken now related fd d taken = elim (Bool-cases (is_event_severity fd.severity)) [
    | inl valid ↦ rw (valid, taken) refl
    | inr other ↦ rw other refl
  ]

  -- For a severity of the schema there are two outcomes. If the next generated id is free, one
  -- active finding with the data given is filed under it, and it is emitted to syslog and shared
  -- with the peers under the same id. If it is taken, IntegrityError is raised, and only the counter
  -- has moved: nothing is filed, emitted or shared.
  pub announce_branches :
      (now : Moment) (event_type port scope : String) (related : Option (List ℕ)) (fd : FindingData)
      (d : Daemon F)
      → is_event_severity fd.severity ≡ true
      → announce now event_type port scope related fd d ≡ (
          if has_id (next_id now d) d.manager.store then (raise integrity_error, counted d) else (
            ok tt,
            share now event_type port scope (next_id now d) fd (
                emit (next_id now d) fd (
                  filed
                    (new_finding now.seconds fd.severity fd.summary
                      (some fd.detail)
                      related
                      (next_id now d))
                    (counted d))),
          ))
  unfolding announce
  announce_branches now event_type port scope related fd d valid =
      elim (Bool-cases (has_id (next_id now d) d.manager.store)) [
        | inl taken ↦ rw taken (rw (create_finding-taken now related fd d taken) refl)
        | inr fresh ↦ rw fresh (rw (create_finding-valid now related fd d valid fresh) refl)
      ]
