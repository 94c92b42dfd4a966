-- ===== src/Peer/Handlers/Heartbeats.antt =====
-- What a heartbeat of a peer leaves (peer/server.py, peer/__init__.py, peer/state.py).
use sonic_watchtower.Prelude.{
  ℕ, String, Bool, ◌≡◌, refl, ap, ◌∙◌, true, false, ◌&&◌, Option, none, some, List, [], ◌∷◌, arith,
  ◌==◌, eq_iff, if◌then◌else◌, Bool-cases, inl, inr,
}
use sonic_watchtower.Prelude.Clock.{Moment}
use sonic_watchtower.Prelude.Exec.{Result, continue, pure, ok, raise, integrity_error}
use sonic_watchtower.Store.{Peer, is_peer_severity}
use sonic_watchtower.Store.Peers.{upsert, find_peer, get_peer, update_heartbeat}
use sonic_watchtower.Peer.{Manager, Status}
use sonic_watchtower.Peer.Calls.{own_status}
use sonic_watchtower.Peer.Handlers.{handle_heartbeat}
use sonic_watchtower.Peer.Server.{
  serve_heartbeat, on_heartbeat, response, full_answer, empty_status,
}

-- The row of a peer after its heartbeat, from the row before: only the summary of its last event
-- is kept.
abbrev pub heard : ℕ → Status → Option Peer → Peer
heard now r old = record {
  peer_hostname = r.hostname;
  last_heartbeat = some now;
  last_event_summary = elim old [ none ↦ none | some p ↦ p.last_event_summary ];
  peer_severity = some r.current_severity;
  role = r.role;
  active_finding_count = r.active_finding_count;
  governor_state = r.governor_state;
  updated_at = now;
}

find_peer-upsert :
    (now : ℕ) (r : Status) (host : String) (ps : List Peer)
    → find_peer host
        (upsert now r.hostname r.current_severity r.active_finding_count r.governor_state r.role ps)
      ≡ (if r.hostname == host then some (heard now r (find_peer host ps)) else find_peer host ps)
unfolding find_peer upsert
find_peer-upsert now r host [] = refl
find_peer-upsert now r host (p ∷ ps) = elim (Bool-cases (p.peer_hostname == r.hostname)) [
  | inl same ↦
      let e : p.peer_hostname ≡ r.hostname = (eq_iff p.peer_hostname r.hostname).0 same in
      rw same (elim (Bool-cases (r.hostname == host)) [
        | inl here ↦
            let own : (p.peer_hostname == host) ≡ true = ap (λ k. k == host) e ∙ here in
            rw (here, own) (ap (λ k. some (record (heard now r (some p)) { peer_hostname = k })) e)
        | inr there ↦
            let own : (p.peer_hostname == host) ≡ false = ap (λ k. k == host) e ∙ there in
            rw (there, own) refl
      ])
  | inr other ↦ rw other (elim (Bool-cases (p.peer_hostname == host)) [
    | inl here ↦
        let not_sender : (r.hostname == host) ≡ false = ground (
          arith,
          other,
          here,
          eq_iff p.peer_hostname host,
          eq_iff r.hostname host,
          eq_iff p.peer_hostname r.hostname,
        ) in
        rw (here, not_sender) refl
    | inr there ↦ rw there (find_peer-upsert now r host ps)
  ])
]

module _ {F : Type 0} where
  -- The manager after a heartbeat that is accepted.
  abbrev pub after_heartbeat : Moment → Status → Manager F → Manager F
  after_heartbeat now r m = record m {
    store = record m.store {
      peer_state =
          upsert now.seconds r.hostname r.current_severity r.active_finding_count r.governor_state
            r.role m.store.peer_state;
    };
  }

  -- What the servicer makes of the result of `handle_heartbeat`.
  abbrev answered : (Result Status × Manager F) → (Bool × Status) × Manager F
  answered (ok s, m) = ((true, response (full_answer s)), m)
  answered (raise e, m) = ((false, empty_status), m)

  answered_lem :
      (r : Result Status) (m : Manager F)
      → (let (a, m') = continue r (λ s. pure (full_answer s)) m in
          elim a as (λ _. (Bool × Status) × Manager F) [
            | ok a ↦ ((true, response a), m')
            | raise e ↦ ((false, empty_status), m')
          ])
        ≡ answered (r, m)
  answered_lem (ok s) m = refl
  answered_lem (raise e) m = refl

  serve_heartbeat-answered :
      (now : Moment) (r : Status) (m : Manager F)
      → serve_heartbeat now r m ≡ answered (handle_heartbeat now r m)
  unfolding serve_heartbeat on_heartbeat
  serve_heartbeat-answered now r m =
      answered_lem (handle_heartbeat now r m).0 (handle_heartbeat now r m).1

  pub serve_heartbeat-valid :
      (now : Moment) (r : Status) (m : Manager F)
      → is_peer_severity r.current_severity ≡ true
      → serve_heartbeat now r m
        ≡ ((true, own_status now (after_heartbeat now r m)), after_heartbeat now r m)
  unfolding handle_heartbeat update_heartbeat
  serve_heartbeat-valid now r m valid = serve_heartbeat-answered now r m ∙ ap answered handled
    where
      handled :
          handle_heartbeat now r m
          ≡ (ok (own_status now (after_heartbeat now r m)), after_heartbeat now r m)
      handled = rw valid refl

  pub serve_heartbeat-refused :
      (now : Moment) (r : Status) (m : Manager F)
      → is_peer_severity r.current_severity ≡ false
      → serve_heartbeat now r m ≡ ((false, empty_status), m)
  unfolding handle_heartbeat update_heartbeat
  serve_heartbeat-refused now r m other = serve_heartbeat-answered now r m ∙ ap answered handled
    where
      handled : handle_heartbeat now r m ≡ (raise integrity_error, m)
      handled = rw other refl

  -- A heartbeat is accepted exactly if its severity is one that the schema knows. Afterwards `get_peer`
  -- of the sender of an accepted one returns what it says, with the summary of the last event kept;
  -- of every other host, and after a refused one, it returns what it did before.
  pub serve_heartbeat_lem :
      (now : Moment) (r : Status) (m : Manager F) (host : String)
      → ((serve_heartbeat now r m).0.0 ≡ is_peer_severity r.current_severity)
        × (get_peer host (serve_heartbeat now r m).1.store ≡ (
            if is_peer_severity r.current_severity && r.hostname == host
            then some (heard now.seconds r (get_peer host m.store))
            else get_peer host m.store))
  unfolding get_peer
  serve_heartbeat_lem now r m host = elim (Bool-cases (is_peer_severity r.current_severity)) [
    | inl valid ↦
        rw (serve_heartbeat-valid now r m valid)
          (rw valid (refl, find_peer-upsert now.seconds r host m.store.peer_state))
    | inr other ↦ rw (serve_heartbeat-refused now r m other) (rw other (refl, refl))
  ]
