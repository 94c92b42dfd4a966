-- ===== src/Peer/Handlers/Findings.antt =====
-- What `handle_finding` of peer/__init__.py, and the servicer's `ShareFinding` around it, do with a
-- finding that a peer shares.
use sonic_watchtower.Prelude.{
  ℕ, ◌+◌, String, ◌<>◌, ◌≡◌, refl, ap, ◌∙◌, true, false, none, some, List, [], ◌∷◌, ◌++◌, arith,
  ◌==◌, eq_iff, ltb, if◌then◌else◌, Bool-cases, inl, inr,
}
use sonic_watchtower.Prelude.Clock.{Moment}
use sonic_watchtower.Prelude.Dict.{Dict, has_key, NodupKeys}
use sonic_watchtower.Prelude.Exec.{ok, raise, integrity_error}
use sonic_watchtower.Store.{is_event_severity}
use sonic_watchtower.Store.Events.{new_event, add_event}
use sonic_watchtower.Store.Events.Recording.{record_event_valid, record_event_refused}
use sonic_watchtower.Store.Peers.{update_event_summary}
use sonic_watchtower.Peer.{Manager, Client, FindingShare, Rpc}
use sonic_watchtower.Peer.Handlers.{handle_finding, accept_finding, gossip, finding_data, passed_on}
use sonic_watchtower.Peer.Seen.{has_seen, mark_seen}
use sonic_watchtower.Peer.Seen.Bounds.{has_seen-mark_seen}
use sonic_watchtower.Peer.Server.{serve_finding}
use sonic_watchtower.Peer.Server.Rescue.{rescue_ok, rescue_raise}

module _ {F : Type 0} where
  -- The manager after a finding that was not seen is accepted.
  abbrev pub after_accept : Moment → FindingShare → Manager F → Manager F
  after_accept now r m = record m {
    seen_finding_ids = mark_seen r.finding_id m.seen_finding_ids;
    store = update_event_summary now.seconds r.hostname ("[finding] " <> r.summary) (
        add_event
          (new_event now.seconds "peer" "peer_finding" r.severity none (some (finding_data r))
            m.store)
          m.store);
    outbox =
        if ltb 1 r.ttl then m.outbox ++ gossip r.hostname (passed_on m r) m.clients else m.outbox;
  }

  -- The manager after a finding that the journal refuses.
  abbrev pub after_refusal : FindingShare → Manager F → Manager F
  after_refusal r m = record m { seen_finding_ids = mark_seen r.finding_id m.seen_finding_ids }

  accept_finding_valid :
      (now : Moment) (r : FindingShare) (m : Manager F)
      → is_event_severity r.severity ≡ true
      → accept_finding now r m ≡ (ok (true, false), after_accept now r m)
  unfolding accept_finding
  accept_finding_valid now r m valid =
      rw
        (record_event_valid now.seconds "peer" "peer_finding" r.severity none
          (some (finding_data r)) m.store refl valid)
        (ground arith)

  accept_finding_refused :
      (now : Moment) (r : FindingShare) (m : Manager F)
      → is_event_severity r.severity ≡ false
      → accept_finding now r m ≡ (raise integrity_error, after_refusal r m)
  unfolding accept_finding
  accept_finding_refused now r m other = rw (
      record_event_refused now.seconds "peer" "peer_finding" r.severity none (some (finding_data r))
        m.store refl other)

  -- All branches of the servicer's `ShareFinding`. A known id is acknowledged and changes nothing.
  -- A new id with a severity of the schema is accepted: it is marked, one peer event with its data
  -- is recorded, the sender's summary is updated, and it is passed on to the other clients if its
  -- time to live is over 1. A new id with another severity is refused, and only marked.
  pub serve_finding_branches :
      (now : Moment) (r : FindingShare) (m : Manager F)
      → serve_finding now r m ≡ (
          if has_seen r.finding_id m.seen_finding_ids
          then ((true, true), m)
          else if is_event_severity r.severity
          then ((true, false), after_accept now r m)
          else ((false, false), after_refusal r m))
  unfolding serve_finding handle_finding
  serve_finding_branches now r m = elim (Bool-cases (has_seen r.finding_id m.seen_finding_ids)) [
    | inl known ↦
        rw known (rescue_ok (false, false) (handle_finding now r) m m (true, true) (rw known))
    | inr new ↦ rw new (elim (Bool-cases (is_event_severity r.severity)) [
      | inl valid ↦ rw valid (
          rescue_ok (false, false) (handle_finding now r) m _ (true, false)
            (rw new (accept_finding_valid now r m valid)))
      | inr other ↦ rw other (
          rescue_raise (false, false) (handle_finding now r) m _ integrity_error
            (rw new (accept_finding_refused now r m other)))
    ])
  ]

  -- The id of a finding that was served is known afterwards, whatever the answer was.
  serve_finding_known :
      (now : Moment) (r : FindingShare) (m : Manager F)
      → has_seen r.finding_id (serve_finding now r m).1.seen_finding_ids ≡ true
  serve_finding_known now r m =
      rw serve_finding_branches (elim (Bool-cases (has_seen r.finding_id m.seen_finding_ids)) [
        | inl known ↦ rw known known
        | inr new ↦ rw new (elim (Bool-cases (is_event_severity r.severity)) [
          | inl valid ↦ rw valid (has_seen-mark_seen r.finding_id m.seen_finding_ids)
          | inr other ↦ rw other (has_seen-mark_seen r.finding_id m.seen_finding_ids)
        ])
      ])

  -- The message right after a finding that was served, if it has the same id, changes nothing.
  pub serve_finding_again :
      (now later : Moment) (r r' : FindingShare) (m : Manager F)
      → r'.finding_id ≡ r.finding_id
      → serve_finding later r' (serve_finding now r m).1 ≡ ((true, true), (serve_finding now r m).1)
  serve_finding_again now later r r' m e =
      let known : has_seen r'.finding_id (serve_finding now r m).1.seen_finding_ids ≡ true =
        rw e (serve_finding_known now r m) in
      rw (serve_finding_branches later r' (serve_finding now r m).1) (rw known)

  -- A new finding whose severity the schema does not know is refused with nothing recorded, and a
  -- second share of the same id, with any severity, is answered as accepted and is not recorded
  -- either.
  pub refused_then_acknowledged :
      (now later : Moment) (r r' : FindingShare) (m : Manager F)
      → has_seen r.finding_id m.seen_finding_ids ≡ false
      → is_event_severity r.severity ≡ false
      → r'.finding_id ≡ r.finding_id
      → ((serve_finding now r m).0 ≡ (false, false))
        × ((serve_finding later r' (serve_finding now r m).1).0 ≡ (true, true))
        × ((serve_finding later r' (serve_finding now r m).1).1.store ≡ m.store)
  refused_then_acknowledged now later r r' m new other e =
      let refused : serve_finding now r m ≡ ((false, false), after_refusal r m) =
        rw serve_finding_branches (rw (new, other)) in
      let again = serve_finding_again now later r r' m e in
      (
        ap (λ p. p.0) refused,
        ap (λ p. p.0) again,
        ap (λ p. p.1.store) again ∙ ap (λ p. p.1.store) refused,
      )

-- How many of the calls go to a host.
unfoldable pub calls_to : String → List (String × Rpc) → ℕ
calls_to host [] = 0
calls_to host ((h, _) ∷ calls) = (if h == host then 1 else 0) + calls_to host calls

calls_to_absent :
    (sender host : String) (msg : FindingShare) (clients : Dict Client)
    → has_key host clients ≡ false
    → calls_to host (gossip sender msg clients) ≡ 0
unfolding calls_to gossip has_key
calls_to_absent sender host msg [] h = refl
calls_to_absent sender host msg ((k, c) ∷ clients) h =
    ground (arith, eq_iff k host, calls_to_absent sender host msg clients)

-- The gossip of a finding calls the sender not at all, and every other client exactly once.
pub calls_to-gossip :
    (sender host : String) (msg : FindingShare) (clients : Dict Client)
    → NodupKeys clients
    → calls_to host (gossip sender msg clients)
      ≡ (if host == sender then 0 else if has_key host clients then 1 else 0)
unfolding calls_to gossip has_key
calls_to-gossip sender host msg [] u = ground arith
calls_to-gossip sender host msg ((k, c) ∷ clients) (fresh, u) = ground (
  arith,
  eq_iff k host,
  eq_iff k sender,
  eq_iff host sender,
  fresh,
  calls_to_absent sender host msg clients,
  calls_to-gossip sender host msg clients u,
)
