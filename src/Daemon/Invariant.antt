-- ===== src/Daemon/Invariant.antt =====
-- What holds of the daemon (main.py) in every state that it reaches: the keys of its tables and
-- dicts are unique, and the set of seen ids is bounded.
pub mod Checks
pub mod Cycle
pub mod Serving
pub mod Reach
use sonic_watchtower.Prelude.{
  ℕ, ◌+◌, String, ◌≡◌, refl, ap, sym, ◌∙◌, Bool, true, false, not, ◌&&◌, ◌||◌, Option, none, some,
  one_of, List, [], ◌∷◌, arith, ◌==◌, if◌then◌else◌, select, any, Bool-cases, inl, inr,
}
use sonic_watchtower.Prelude.Clock.{Moment}
use sonic_watchtower.Prelude.Dict.{Dict, NodupKeys}
use sonic_watchtower.Prelude.Exec.{Exec, modify, ok, raise, continue_preserves, for_each_preserves}
use sonic_watchtower.Store.{Store, Value, Finding, Baseline, is_event_severity, is_event_source}
use sonic_watchtower.Store.Events.{record_event}
use sonic_watchtower.Store.Findings.{create, insert_finding, new_finding, generated_id}
use sonic_watchtower.Store.Findings.Creating.{UniqueIds, create-UniqueIds}
use sonic_watchtower.Store.Baselines.Keys.{UniqueKeys}
use sonic_watchtower.Peer.{Manager, Client}
use sonic_watchtower.Peer.Calls.{tell_event, tell_finding, may_share}
use sonic_watchtower.Peer.Seen.{max_seen_findings, mark_seen}
use sonic_watchtower.Peer.Seen.Bounds.{IsSeenSet, mark_within-IsSeenSet}
use sonic_watchtower.Report.{FindingData}
use sonic_watchtower.Daemon.{Daemon, on_journal}
use sonic_watchtower.Daemon.Checks.{record_local, create_finding, emit, share, announce, report}

pub mark_seen-IsSeenSet :
    (fid : String) (seen : List String)
    → IsSeenSet max_seen_findings seen
    → IsSeenSet max_seen_findings (mark_seen fid seen)
unfolding mark_seen
mark_seen-IsSeenSet fid seen s = mark_within-IsSeenSet max_seen_findings fid seen (omega arith) s

module _ {F : Type 0} where
  -- No finding id, no key of a baseline, no client and no seen id twice, and at most 1000 seen ids.
  abbrev pub IsSoundManager : Manager F → Type 0
  IsSoundManager m =
      UniqueIds m.store.findings
      × UniqueKeys m.store.baselines
      × NodupKeys m.clients
      × IsSeenSet max_seen_findings m.seen_finding_ids

  abbrev pub IsSound : Daemon F → Type 0
  IsSound d = IsSoundManager d.manager

  pub record_event_keeps :
      (now : ℕ) (source category severity : String) (port : Option String)
      (raw : Option (Dict (Value F))) (s : Store F)
      → ((record_event now source category severity port raw s).1.findings ≡ s.findings)
        × ((record_event now source category severity port raw s).1.baselines ≡ s.baselines)
  unfolding record_event
  record_event_keeps now source category severity port raw s =
      elim (Bool-cases (is_event_source source && is_event_severity severity)) [
        | inl valid ↦ rw valid (refl, refl)
        | inr other ↦ rw other (refl, refl)
      ]

  insert_finding_keeps :
      (f : Finding) (s : Store F) → (insert_finding f s).1.baselines ≡ s.baselines
  unfolding insert_finding
  insert_finding_keeps f s =
      elim (Bool-cases (
        is_event_severity f.severity && not (any (λ g. g.finding_id == f.finding_id) s.findings))) [
          | inl free ↦ rw free refl
          | inr refused ↦ rw refused refl
        ]

  create_keeps :
      (now : Moment) (severity summary : String) (detail : Option String)
      (related : Option (List ℕ)) (oid : Option String) (s : Store F)
      → (create now severity summary detail related oid s).1.baselines ≡ s.baselines
  unfolding create
  create_keeps now severity summary detail related none s =
      insert_finding_keeps
        (new_finding now.seconds severity summary detail related (generated_id now s.next_finding))
        (record s { next_finding = s.next_finding + 1 })
  create_keeps now severity summary detail related (some fid) s =
      insert_finding_keeps (new_finding now.seconds severity summary detail related fid) s

  record_local-IsSound :
      (now : Moment) (category severity : String) (port : Option String) (raw : Dict (Value F))
      (d : Daemon F)
      → IsSound d
      → IsSound (record_local now category severity port raw d).1
  unfolding record_local
  record_local-IsSound now category severity port raw d (ids, keys, hosts, seen) =
      let kept =
        record_event_keeps now.seconds "local" category severity port (some raw) d.manager.store in
      (rw kept.0 ids, rw kept.1 keys, hosts, seen)

  create_finding-IsSound :
      (now : Moment) (fd : FindingData) (related : Option (List ℕ)) (d : Daemon F)
      → IsSound d
      → IsSound (create_finding now fd related d).1
  unfolding create_finding
  create_finding-IsSound now fd related d (ids, keys, hosts, seen) = (
    create-UniqueIds now fd.severity fd.summary (some fd.detail) related none d.manager.store ids,
    rw (create_keeps now fd.severity fd.summary (some fd.detail) related none d.manager.store) keys,
    hosts,
    seen,
  )

  tell_event-IsSound :
      (now : Moment) (event_type port summary : String) (m : Manager F)
      → IsSoundManager m
      → IsSoundManager (tell_event now event_type port summary m)
  unfolding tell_event
  tell_event-IsSound now event_type port summary m h = elim (Bool-cases (may_share m)) [
    | inl allowed ↦ rw (allowed, tell_event) h
    | inr not_now ↦ rw (not_now, tell_event) h
  ]

  pub tell_finding-IsSound :
      (now : Moment) (fid severity summary scope : String) (m : Manager F)
      → IsSoundManager m
      → IsSoundManager (tell_finding now fid severity summary scope m)
  unfolding tell_finding
  tell_finding-IsSound now fid severity summary scope m (ids, keys, hosts, seen) =
      elim (Bool-cases (may_share m && one_of severity ("warning" ∷ "critical" ∷ []))) [
        | inl allowed ↦
            rw (allowed, tell_finding)
              (ids, keys, hosts, mark_seen-IsSeenSet fid m.seen_finding_ids seen)
        | inr not_now ↦ rw (not_now, tell_finding) (ids, keys, hosts, seen)
      ]

  pub announce-IsSound :
      (now : Moment) (event_type port scope : String) (related : Option (List ℕ)) (fd : FindingData)
      (d : Daemon F)
      → IsSound d
      → IsSound (announce now event_type port scope related fd d).1
  unfolding announce emit share
  announce-IsSound now event_type port scope related fd d h =
      let (r, d') = create_finding now fd related d in
      let h' = create_finding-IsSound now fd related d h in
      continue_preserves IsSound r
        (λ fid. modify (λ d. share now event_type port scope fid fd (emit fid fd d))) d' h'
        (λ fid.
          tell_finding-IsSound now fid fd.severity fd.summary scope _
            (tell_event-IsSound now event_type port fd.summary d'.manager h'))
