-- ===== src/Daemon/Checks/Outcome.antt =====
-- What a report of a check of main.py leaves in the journal, in syslog and on the way to the peers.
use mathlib.Core.List.{append_assoc, append-nil}
use sonic_watchtower.Prelude.{
  ℕ, String, ◌≡◌, refl, ap, sym, ◌∙◌, ◌⊎◌, inl, inr, true, false, not, ◌&&◌, ◌||◌, Option, some,
  List, [], ◌∷◌, ◌++◌, map, arith, ◌==◌, if◌then◌else◌, Bool-cases, one_of,
}
use sonic_watchtower.Prelude.Clock.{Moment}
use sonic_watchtower.Prelude.Exec.{ok, raise, integrity_error}
use sonic_watchtower.Governor.{dormant, same_state}
use sonic_watchtower.Store.{Store, is_event_severity}
use sonic_watchtower.Store.Findings.{new_finding, has_id}
use sonic_watchtower.Report.{FindingData}
use sonic_watchtower.Output.Syslog.{Emitter}
use sonic_watchtower.Peer.{Manager, Rpc, share_event, share_finding}
use sonic_watchtower.Peer.Calls.{tell_event, tell_finding, may_share}
use sonic_watchtower.Daemon.{Daemon}
use sonic_watchtower.Daemon.Checks.{announce, emit, share}
use sonic_watchtower.Daemon.Checks.Announcing.{announce_branches, next_id, counted, filed}
use sonic_watchtower.Output.Syslog.Lines.{line, is_logged, emitted-emit}

loud_lem :
    (s : String) → one_of s ("warning" ∷ "critical" ∷ []) ≡ (s == "warning" || s == "critical")
loud_lem s = ground arith

module _ {F : Type 0} where
  -- The event that goes to a peer.
  abbrev pub event_call : Moment → String → String → FindingData → Manager F → Rpc
  event_call now event_type port fd m = share_event (record {
    hostname = m.config.hostname;
    timestamp = now.iso_text;
    event_type = event_type;
    affected_port = port;
    summary = fd.summary;
    metrics = [];
  })

  -- The finding that goes to a peer, with the full time to live.
  abbrev pub finding_call : Moment → String → String → FindingData → Manager F → Rpc
  finding_call now scope fid fd m = share_finding (record {
    hostname = m.config.hostname;
    origin_hostname = m.config.hostname;
    timestamp = now.iso_text;
    severity = fd.severity;
    summary = fd.summary;
    affected_scope = scope;
    ttl = m.config.peer.finding_ttl;
    finding_id = fid;
  })

  -- A call to each peer, in the order of the clients.
  abbrev pub to_each : Rpc → Manager F → List (String × Rpc)
  to_each rpc m = map (λ c. (c.0, rpc)) m.clients

  -- What is called: nothing if the protocol is off or the governor dormant; else the event, and the
  -- finding too if it is a warning or critical.
  abbrev pub calls :
      Moment → String → String → String → String → FindingData → Manager F → List (String × Rpc)
  calls now event_type port scope fid fd m =
      if m.enabled && not (same_state m.governor.state dormant)
      then to_each (event_call now event_type port fd m) m
        ++ (if fd.severity == "warning" || fd.severity == "critical"
            then to_each (finding_call now scope fid fd m) m
            else [])
      else []

  tell_event_on :
      (now : Moment) (event_type port : String) (fd : FindingData) (m : Manager F)
      → may_share m ≡ true
      → tell_event now event_type port fd.summary m
        ≡ record m { outbox = m.outbox ++ to_each (event_call now event_type port fd m) m }
  unfolding tell_event
  tell_event_on now event_type port fd m may = rw may refl

  tell_event_off :
      (now : Moment) (event_type port : String) (fd : FindingData) (m : Manager F)
      → may_share m ≡ false
      → tell_event now event_type port fd.summary m ≡ m
  unfolding tell_event
  tell_event_off now event_type port fd m off = rw off refl

  tell_finding-outbox :
      (now : Moment) (scope fid : String) (fd : FindingData) (m : Manager F)
      → (tell_finding now fid fd.severity fd.summary scope m).outbox ≡ (
          if may_share m && one_of fd.severity ("warning" ∷ "critical" ∷ [])
          then m.outbox ++ to_each (finding_call now scope fid fd m) m
          else m.outbox)
  unfolding tell_finding
  tell_finding-outbox now scope fid fd m =
      elim (Bool-cases (may_share m && one_of fd.severity ("warning" ∷ "critical" ∷ []))) [
        | inl may ↦ rw may refl
        | inr not_now ↦ rw not_now refl
      ]

  outbox-share :
      (now : Moment) (event_type port scope fid : String) (fd : FindingData) (d : Daemon F)
      → (share now event_type port scope fid fd d).manager.outbox
        ≡ d.manager.outbox ++ calls now event_type port scope fid fd d.manager
  unfolding share
  outbox-share now event_type port scope fid fd d = elim (Bool-cases (may_share d.manager)) [
    | inr off ↦
        ap (λ (m : Manager F). (tell_finding now fid fd.severity fd.summary scope m).outbox)
          (tell_event_off now event_type port fd d.manager off)
        ∙ tell_finding-outbox now scope fid fd d.manager
        ∙ rw off (sym (append-nil d.manager.outbox))
    | inl may ↦
        let events = to_each (event_call now event_type port fd d.manager) d.manager in
        let findings = to_each (finding_call now scope fid fd d.manager) d.manager in
        let m = record d.manager { outbox = d.manager.outbox ++ events } in
        let told = tell_finding-outbox now scope fid fd m in
        ap (λ (m : Manager F). (tell_finding now fid fd.severity fd.summary scope m).outbox)
          (tell_event_on now event_type port fd d.manager may)
        ∙ told
        ∙ elim (Bool-cases (fd.severity == "warning" || fd.severity == "critical")) [
          | inl loud ↦
              rw (may, loud_lem fd.severity ∙ loud, loud)
                (append_assoc d.manager.outbox events findings)
          | inr quiet ↦
              rw (may, loud_lem fd.severity ∙ quiet, quiet)
                (ap (λ xs. d.manager.outbox ++ xs) (sym (append-nil events)))
        ]
  ]

  tell_event-store :
      (now : Moment) (event_type port summary : String) (m : Manager F)
      → (tell_event now event_type port summary m).store ≡ m.store
  unfolding tell_event
  tell_event-store now event_type port summary m = elim (Bool-cases (may_share m)) [
    | inl may ↦ rw may refl
    | inr not_now ↦ rw not_now refl
  ]

  tell_finding-store :
      (now : Moment) (fid severity summary scope : String) (m : Manager F)
      → (tell_finding now fid severity summary scope m).store ≡ m.store
  unfolding tell_finding
  tell_finding-store now fid severity summary scope m =
      elim (Bool-cases (may_share m && one_of severity ("warning" ∷ "critical" ∷ []))) [
        | inl may ↦ rw may refl
        | inr not_now ↦ rw not_now refl
      ]

  store-share :
      (now : Moment) (event_type port scope fid : String) (fd : FindingData) (d : Daemon F)
      → (share now event_type port scope fid fd d).manager.store ≡ d.manager.store
  unfolding share
  store-share now event_type port scope fid fd d =
      tell_finding-store now fid fd.severity fd.summary scope
        (tell_event now event_type port fd.summary d.manager)
      ∙ tell_event-store now event_type port fd.summary d.manager

  syslog-share :
      (now : Moment) (event_type port scope fid : String) (fd : FindingData) (d : Daemon F)
      → (share now event_type port scope fid fd d).syslog ≡ d.syslog
  unfolding share
  syslog-share now event_type port scope fid fd d = refl

  -- A report of a finding with a severity of the schema has two outcomes. If the next generated id is
  -- taken, IntegrityError is raised, and only the counter has moved. If it is free, the finding is
  -- added to the journal under it; syslog gets one line with the priority of its severity if syslog is
  -- on and the severity not under the least one (which is one of the schema too), and none otherwise;
  -- and unless the protocol is off or the governor dormant, every peer is called with the event, and
  -- with the finding too if it is a warning or critical.
  pub announce_lem :
      (now : Moment) (event_type port scope : String) (related : Option (List ℕ)) (fd : FindingData)
      (d : Daemon F)
      → is_event_severity fd.severity ≡ true
      → is_event_severity d.syslog.config.min_severity ≡ true
      → ((has_id (next_id now d) d.manager.store ≡ true)
          × (announce now event_type port scope related fd d ≡ (raise integrity_error, counted d)))
        ⊎ ((has_id (next_id now d) d.manager.store ≡ false)
            × (d' : Daemon F) × (announce now event_type port scope related fd d ≡ (ok tt, d'))
            × (d'.manager.store.findings
                ≡ d.manager.store.findings
                  ++ new_finding now.seconds fd.severity fd.summary
                      (some fd.detail)
                      related
                      (next_id now d)
                    ∷ [])
            × (d'.syslog.emitted ≡ (
                if is_logged fd d.syslog
                then d.syslog.emitted ++ line (next_id now d) fd ∷ []
                else d.syslog.emitted))
            × (d'.manager.outbox
                ≡ d.manager.outbox ++ calls now event_type port scope (next_id now d) fd d.manager))
  unfolding emit
  announce_lem now event_type port scope related fd d valid known =
      let fid = next_id now d in
      let f = new_finding now.seconds fd.severity fd.summary (some fd.detail) related fid in
      let done = emit fid fd (filed f (counted d)) in
      let run = announce_branches now event_type port scope related fd d valid in
      elim (Bool-cases (has_id fid d.manager.store)) [
        | inl taken ↦ inl (taken, rw taken at run)
        | inr fresh ↦ inr (
          fresh,
          share now event_type port scope fid fd done,
          rw fresh at run,
          ap (λ (s : Store F). s.findings) (store-share now event_type port scope fid fd done),
          ap (λ (e : Emitter). e.emitted) (syslog-share now event_type port scope fid fd done)
              ∙ emitted-emit fid fd d.syslog valid known,
          outbox-share now event_type port scope fid fd done,
        )
      ]
