-- ===== src/Daemon/Changes/Counting.antt =====
-- How many findings the checks of BGP sessions and links (main.py) file.
use sonic_watchtower.Prelude.{
  ℕ, ◌+◌, String, ◌≡◌, refl, ap, ◌∙◌, true, Option, none, some, List, [], ◌∷◌, ◌++◌, arith, ◌==◌,
  if◌then◌else◌, length, Bool-cases, inl, inr,
}
use sonic_watchtower.Prelude.Clock.{Moment}
use sonic_watchtower.Prelude.Dict.{Dict, lookup, NodupKeys}
use sonic_watchtower.Prelude.Exec.{ok, modify}
use sonic_watchtower.Store.{Value, Finding, is_event_severity}
use sonic_watchtower.Store.Events.Recording.{record_event_valid}
use sonic_watchtower.Store.Findings.{has_id}
use sonic_watchtower.Analyzers.Diff.{Info}
use sonic_watchtower.Report.{FindingData, finding_from_link_change, finding_from_bgp_change}
use sonic_watchtower.Peer.Calls.{tell_event, tell_finding}
use sonic_watchtower.Daemon.{Daemon, BgpSession}
use sonic_watchtower.Daemon.Checks.{announce, record_local, emit, share, report}
use sonic_watchtower.Daemon.Checks.Announcing.{announce_branches, next_id}
use sonic_watchtower.Daemon.Changes.{
  report_bgp, check_bgp, check_bgp_changes, report_link, check_link, check_link_changes, set_oper,
  set_bgp,
}
use sonic_watchtower.Daemon.Changes.Tracked.{moved, Counts, moved_in, for_each-Counts}
use sonic_watchtower.Daemon.Changes.Settled.{check_link-Remembers, check_bgp-Remembers, continue_ok}

length-append_one : (f : Finding) (fs : List Finding) → length (fs ++ f ∷ []) ≡ 1 + length fs
length-append_one f [] = refl
length-append_one f (g ∷ fs) = omega (arith, length-append_one f fs)

link_severity :
    (port oper : String) (neighbor : Option Info)
    → is_event_severity (finding_from_link_change port oper neighbor).severity ≡ true
unfolding finding_from_link_change
link_severity port oper neighbor = elim (Bool-cases (oper == "down")) [
  | inl down ↦ rw (down, finding_from_link_change) refl
  | inr up ↦ rw (up, finding_from_link_change) refl
]

bgp_severity :
    (ip old new description : String)
    → is_event_severity (finding_from_bgp_change ip old new description).severity ≡ true
unfolding finding_from_bgp_change
bgp_severity ip old new description = elim (Bool-cases (new == "Established")) [
  | inl up ↦ rw (up, finding_from_bgp_change) refl
  | inr other ↦ elim (Bool-cases (old == "Established")) [
    | inl down ↦ rw (other, down, finding_from_bgp_change) refl
    | inr between ↦ rw (other, between, finding_from_bgp_change) refl
  ]
]

module _ {F : Type 0} where
  -- The number of findings in the journal.
  abbrev pub filed_count : Daemon F → ℕ
  filed_count d = length d.manager.store.findings

  filed_count-share :
      (now : Moment) (event_type port scope fid : String) (fd : FindingData) (d : Daemon F)
      → filed_count (share now event_type port scope fid fd d) ≡ filed_count d
  unfolding share tell_event tell_finding
  filed_count-share now event_type port scope fid fd d = ground arith

  filed_count-announce :
      (now : Moment) (event_type port scope : String) (related : Option (List ℕ)) (fd : FindingData)
      (d : Daemon F)
      → is_event_severity fd.severity ≡ true
      → (announce now event_type port scope related fd d).0 ≡ ok tt
      → filed_count (announce now event_type port scope related fd d).1 ≡ 1 + filed_count d
  unfolding emit
  filed_count-announce now event_type port scope related fd d valid h =
      let e = announce_branches now event_type port scope related fd d valid in
      elim (Bool-cases (has_id (next_id now d) d.manager.store)) [
        | inl taken ↦ cc (rw taken at (rw e at h))
        | inr fresh ↦ rw e (
            rw fresh (
              filed_count-share now event_type port scope (next_id now d) fd _
              ∙ length-append_one _ d.manager.store.findings))
      ]

  filed_count-report :
      (now : Moment) (category : String) (at_port : Option String) (port : String)
      (raw : Dict (Value F)) (fd : FindingData) (d : Daemon F)
      → is_event_severity fd.severity ≡ true
      → (report now category at_port port raw fd d).0 ≡ ok tt
      → filed_count (report now category at_port port raw fd d).1 ≡ 1 + filed_count d
  unfolding report record_local
  filed_count-report now category at_port port raw fd d valid h =
      let e =
        record_event_valid now.seconds "local" category fd.severity at_port (some raw)
          d.manager.store refl valid in
      let h' = rw e at h in rw e (filed_count-announce now category port port _ fd _ valid h')

  filed_count-report_link :
      (now : Moment) (lldp : Dict Info) (port : String) (old : Option String) (oper : String)
      (d : Daemon F)
      → (report_link now lldp port old oper d).0 ≡ ok tt
      → filed_count (report_link now lldp port old oper d).1
        ≡ (if moved old oper then 1 else 0) + filed_count d
  unfolding report_link
  filed_count-report_link now lldp port none oper d h = omega arith
  filed_count-report_link now lldp port (some old) oper d h = elim (Bool-cases (old == oper)) [
    | inl same ↦ rw same (omega arith)
    | inr other ↦
        let h' = rw other at h in
        rw other (
          filed_count-report now "link_change" _ _ _ _ d
            (link_severity port oper (lookup port lldp)) h')
  ]

  filed_count-report_bgp :
      (now : Moment) (ip : String) (old : Option String) (session : BgpSession) (d : Daemon F)
      → (report_bgp now ip old session d).0 ≡ ok tt
      → filed_count (report_bgp now ip old session d).1
        ≡ (if moved old session.state then 1 else 0) + filed_count d
  unfolding report_bgp
  filed_count-report_bgp now ip none session d h = omega arith
  filed_count-report_bgp now ip (some old) session d h = elim (Bool-cases (old == session.state)) [
    | inl same ↦ rw same (omega arith)
    | inr other ↦
        let h' = rw other at h in
        rw other (
          filed_count-report now "bgp_change" _ _ _ _ d
            (bgp_severity ip old session.state session.description) h')
  ]

  check_link-Counts :
      (now : Moment) (lldp : Dict Info)
      → Counts (λ o. o) (λ (d : Daemon F). d.last_oper_states) filed_count (check_link now lldp)
  unfolding check_link
  check_link-Counts now lldp k v d h =
      let (r, d') = report_link now lldp k (lookup k d.last_oper_states) v d in
      let (_, ended, e) = continue_ok r (λ _. modify (set_oper k v)) d' h in
      ap (λ p. filed_count p.1) e
      ∙ filed_count-report_link now lldp k (lookup k d.last_oper_states) v d ended

  check_bgp-Counts :
      (now : Moment)
      → Counts
          (λ session. session.state)
          (λ (d : Daemon F). d.last_bgp_states)
          filed_count
          (check_bgp now)
  unfolding check_bgp
  check_bgp-Counts now k v d h =
      let (r, d') = report_bgp now k (lookup k d.last_bgp_states) v d in
      let (_, ended, e) = continue_ok r (λ _. modify (set_bgp k v.state)) d' h in
      ap (λ p. filed_count p.1) e
      ∙ filed_count-report_bgp now k (lookup k d.last_bgp_states) v d ended

  -- A check of links that ended without an exception has filed exactly one finding for each
  -- interface whose last state was known and is another now.
  pub check_link_changes-filed :
      (now : Moment) (ifaces : Dict String) (lldp : Dict Info) (d : Daemon F)
      → NodupKeys ifaces
      → (check_link_changes now ifaces lldp d).0 ≡ ok tt
      → filed_count (check_link_changes now ifaces lldp d).1
        ≡ moved_in (λ o. o) d.last_oper_states ifaces + filed_count d
  unfolding check_link_changes
  check_link_changes-filed now ifaces lldp d u h =
      for_each-Counts (λ o. o) (λ d. d.last_oper_states) (check_link now lldp) filed_count
        (check_link-Remembers now lldp) (check_link-Counts now lldp) ifaces d u h

  -- A check of BGP sessions that ended without an exception has filed exactly one finding for each
  -- session whose last state was known and is another now.
  pub check_bgp_changes-filed :
      (now : Moment) (sessions : Dict BgpSession) (d : Daemon F)
      → NodupKeys sessions
      → (check_bgp_changes now sessions d).0 ≡ ok tt
      → filed_count (check_bgp_changes now sessions d).1
        ≡ moved_in (λ session. session.state) d.last_bgp_states sessions + filed_count d
  unfolding check_bgp_changes
  check_bgp_changes-filed now sessions d u h =
      for_each-Counts (λ session. session.state) (λ d. d.last_bgp_states) (check_bgp now)
        filed_count (check_bgp-Remembers now) (check_bgp-Counts now) sessions d u h
