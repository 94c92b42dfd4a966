-- ===== src/Daemon/Changes/Settled.antt =====
-- What the checks of BGP sessions and links (main.py) report and remember.
use sonic_watchtower.Prelude.{
  ℕ, String, ◌≡◌, refl, ap, ◌∙◌, Option, none, some, List, [], ◌∷◌, ◌==◌, eq_refl, if◌then◌else◌,
  Bool-cases, inl, inr,
}
use sonic_watchtower.Prelude.Clock.{Moment}
use sonic_watchtower.Prelude.Dict.{Dict, lookup, NodupKeys, lookup-insert, insert_same}
use sonic_watchtower.Prelude.Exec.{
  Exec, Result, ok, raise, continue, modify, continue_keeps, for_each,
}
use sonic_watchtower.Store.{Value}
use sonic_watchtower.Analyzers.Diff.{Info}
use sonic_watchtower.Report.{FindingData}
use sonic_watchtower.Daemon.{Daemon, BgpSession}
use sonic_watchtower.Daemon.Checks.{announce, record_local, create_finding, emit, share, report}
use sonic_watchtower.Daemon.Changes.{
  report_bgp, check_bgp, check_bgp_changes, report_link, check_link, check_link_changes, set_oper,
  set_bgp,
}
use sonic_watchtower.Daemon.Changes.Tracked.{
  Remembers, Settles, seen_state, AllSeen-of, for_each-Remembers, for_each-AllSeen,
}

module _ {F : Type 0} where
  -- The states last seen.
  abbrev tracked : Daemon F → Dict String × Dict String
  tracked d = (d.last_bgp_states, d.last_oper_states)

  tracked-announce :
      (now : Moment) (event_type port scope : String) (related : Option (List ℕ)) (fd : FindingData)
      (d : Daemon F)
      → tracked (announce now event_type port scope related fd d).1 ≡ tracked d
  unfolding announce emit share create_finding
  tracked-announce now event_type port scope related fd d =
      continue_keeps tracked (create_finding now fd related d).0 _
        (create_finding now fd related d).1 (λ a. refl)

  tracked-report :
      (now : Moment) (category : String) (at_port : Option String) (port : String)
      (raw : Dict (Value F)) (fd : FindingData) (d : Daemon F)
      → tracked (report now category at_port port raw fd d).1 ≡ tracked d
  unfolding report record_local
  tracked-report now category at_port port raw fd d =
      let (r, d') = record_local now category fd.severity at_port raw d in
      continue_keeps tracked r (λ i. announce now category port port (some (i ∷ [])) fd) d'
        (λ i. tracked-announce now category port port (some (i ∷ [])) fd d')

  tracked-report_link :
      (now : Moment) (lldp : Dict Info) (port : String) (old : Option String) (oper : String)
      (d : Daemon F)
      → tracked (report_link now lldp port old oper d).1 ≡ tracked d
  unfolding report_link
  tracked-report_link now lldp port none oper d = refl
  tracked-report_link now lldp port (some old) oper d = elim (Bool-cases (old == oper)) [
    | inl same ↦ rw same refl
    | inr other ↦ rw other (tracked-report now _ _ _ _ _ d)
  ]

  tracked-report_bgp :
      (now : Moment) (ip : String) (old : Option String) (session : BgpSession) (d : Daemon F)
      → tracked (report_bgp now ip old session d).1 ≡ tracked d
  unfolding report_bgp
  tracked-report_bgp now ip none session d = refl
  tracked-report_bgp now ip (some old) session d = elim (Bool-cases (old == session.state)) [
    | inl same ↦ rw same refl
    | inr other ↦ rw other (tracked-report now _ _ _ _ _ d)
  ]

  -- A chain that ends without an exception went through its first part.
  pub continue_ok :
      {A : Type 0} (r : Result A) (f : A → Exec (Daemon F) (Unit {0})) (d : Daemon F)
      → (continue r f d).0 ≡ ok tt
      → (a : A) × (r ≡ ok a) × (continue r f d ≡ f a d)
  continue_ok (ok a) f d h = (a, refl, refl)
  continue_ok (raise e) f d h = cc h

  pub check_link-Remembers :
      (now : Moment) (lldp : Dict Info)
      → Remembers (λ o. o) (λ (d : Daemon F). d.last_oper_states) (check_link now lldp)
  unfolding check_link
  check_link-Remembers now lldp k v j d h =
      let (r, d') = report_link now lldp k (lookup k d.last_oper_states) v d in
      let (_, _, e) = continue_ok r (λ _. modify (set_oper k v)) d' h in
      ap (λ p. lookup j p.1.last_oper_states) e
      ∙ lookup-insert k j v d'.last_oper_states
      ∙ ap (λ t. if k == j then some v else lookup j t.1)
          (tracked-report_link now lldp k (lookup k d.last_oper_states) v d)

  pub check_bgp-Remembers :
      (now : Moment)
      → Remembers (λ session. session.state) (λ (d : Daemon F). d.last_bgp_states) (check_bgp now)
  unfolding check_bgp
  check_bgp-Remembers now k v j d h =
      let (r, d') = report_bgp now k (lookup k d.last_bgp_states) v d in
      let (_, _, e) = continue_ok r (λ _. modify (set_bgp k v.state)) d' h in
      ap (λ p. lookup j p.1.last_bgp_states) e
      ∙ lookup-insert k j v.state d'.last_bgp_states
      ∙ ap (λ t. if k == j then some v.state else lookup j t.0)
          (tracked-report_bgp now k (lookup k d.last_bgp_states) v d)

  check_link-Settles :
      (now : Moment) (lldp : Dict Info)
      → Settles (λ o. o) (λ (d : Daemon F). d.last_oper_states) (check_link now lldp)
  unfolding check_link report_link
  check_link-Settles now lldp k v d seen =
      rw (seen, eq_refl v)
        (ap (λ t. (ok tt, record d { last_oper_states = t }))
          (insert_same k v d.last_oper_states seen))

  check_bgp-Settles :
      (now : Moment)
      → Settles (λ session. session.state) (λ (d : Daemon F). d.last_bgp_states) (check_bgp now)
  unfolding check_bgp report_bgp
  check_bgp-Settles now k v d seen =
      rw (seen, eq_refl v.state)
        (ap (λ t. (ok tt, record d { last_bgp_states = t }))
          (insert_same k v.state d.last_bgp_states seen))

  -- After a check of links that ended without an exception, the last state of every interface checked
  -- is the one it had in the check, and of every other as before; and the same check once more, at any time and
  -- with any neighbours, does nothing at all: a link that stays as it is is not reported again.
  pub check_link_changes-settles :
      (now later : Moment) (ifaces : Dict String) (lldp lldp' : Dict Info) (port : String)
      (d : Daemon F)
      → NodupKeys ifaces
      → (check_link_changes now ifaces lldp d).0 ≡ ok tt
      → (lookup port (check_link_changes now ifaces lldp d).1.last_oper_states
          ≡ seen_state (λ o. o) port ifaces d.last_oper_states)
        × (check_link_changes later ifaces lldp' (check_link_changes now ifaces lldp d).1
            ≡ (ok tt, (check_link_changes now ifaces lldp d).1))
  unfolding check_link_changes
  check_link_changes-settles now later ifaces lldp lldp' port d u h =
      let after : Daemon F = (for_each ifaces (check_link now lldp) d).1 in
      let known : (j : String)
          → lookup j after.last_oper_states ≡ seen_state (λ o. o) j ifaces d.last_oper_states =
        λ j.
          for_each-Remembers _ _ (check_link now lldp) (check_link-Remembers now lldp) ifaces d j u
            h in
      (
        known port,
        for_each-AllSeen _ _ (check_link later lldp') (check_link-Settles later lldp') ifaces after
            (AllSeen-of (λ o. o) d.last_oper_states after.last_oper_states ifaces u
              (λ j p. known j)),
      )

  -- After a check of BGP sessions that ended without an exception, the last state of every session
  -- checked is the one it had in the check, and of every other as before; and the same check once
  -- more, at any time, does nothing at all: a session that stays in its state is not reported again.
  pub check_bgp_changes-settles :
      (now later : Moment) (sessions : Dict BgpSession) (ip : String) (d : Daemon F)
      → NodupKeys sessions
      → (check_bgp_changes now sessions d).0 ≡ ok tt
      → (lookup ip (check_bgp_changes now sessions d).1.last_bgp_states
          ≡ seen_state (λ session. session.state) ip sessions d.last_bgp_states)
        × (check_bgp_changes later sessions (check_bgp_changes now sessions d).1
            ≡ (ok tt, (check_bgp_changes now sessions d).1))
  unfolding check_bgp_changes
  check_bgp_changes-settles now later sessions ip d u h =
      let after : Daemon F = (for_each sessions (check_bgp now) d).1 in
      let known : (j : String)
          → lookup j after.last_bgp_states
            ≡ seen_state (λ session. session.state) j sessions d.last_bgp_states =
        λ j. for_each-Remembers _ _ (check_bgp now) (check_bgp-Remembers now) sessions d j u h in
      (
        known ip,
        for_each-AllSeen _ _ (check_bgp later) (check_bgp-Settles later) sessions after (
            AllSeen-of (λ session. session.state) d.last_bgp_states after.last_bgp_states sessions u
              (λ j p. known j)),
      )
