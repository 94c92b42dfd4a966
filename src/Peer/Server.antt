-- ===== src/Peer/Server.antt =====
-- peer/server.py: the interface of a handler of peer messages, the servicer over any such handler,
-- each method of which turns an exception of the handler into a refusal, and the servicer that
-- `PeerManager` starts, whose handler is itself.
pub mod Rescue
use sonic_watchtower.Prelude.{ℕ, String, Bool, true, false, Option, none, some, List, [], ◌∷◌}
use sonic_watchtower.Prelude.Clock.{Moment}
use sonic_watchtower.Prelude.Exec.{Exec, Result, ok, raise, pure, continue, ◌>>=◌}
use sonic_watchtower.Peer.{Manager, Status, EventShare, TopologyShare, FindingShare}
use sonic_watchtower.Peer.Handlers.{handle_heartbeat, handle_event, handle_topology, handle_finding}

-- The dict that `handle_heartbeat` returns: a key of it may be missing.
pub record Answer : Type 0 where
  pub hostname : Option String
  pub role : Option String
  pub uptime_seconds : Option ℕ
  pub current_severity : Option String
  pub active_finding_count : Option ℕ
  pub governor_state : Option String

-- `PeerMessageHandler`, for a handler with the state `S`.
pub record PeerMessageHandler (S : Type 0) : Type 0 where
  pub handle_heartbeat : Status → Exec S Answer
  pub handle_event : EventShare → Exec S Bool
  pub handle_topology : TopologyShare → Exec S Bool
  pub handle_finding : FindingShare → Exec S (Bool × Bool)

abbrev or_else : {A : Type 0} → A → Option A → A
or_else fallback none = fallback
or_else fallback (some a) = a

-- The `HeartbeatResponse` of `our_status`, with its defaults.
abbrev pub response : Answer → Status
response a = record {
  hostname = or_else "" a.hostname;
  role = or_else "leaf" a.role;
  uptime_seconds = or_else 0 a.uptime_seconds;
  current_severity = or_else "ok" a.current_severity;
  active_finding_count = or_else 0 a.active_finding_count;
  governor_state = or_else "unknown" a.governor_state;
}

-- The empty `HeartbeatResponse`, which goes with the status INTERNAL.
abbrev pub empty_status : Status
empty_status = record {
  hostname = "";
  role = "";
  uptime_seconds = 0;
  current_severity = "";
  active_finding_count = 0;
  governor_state = "";
}

-- `try: return e; except Exception: return fallback`; what was written stays written.
unfoldable pub rescue : {S A : Type 0} → A → Exec S A → S → A × S
rescue fallback m s = let (r, s') = m s in elim r [ ok a ↦ (a, s') | raise e ↦ (fallback, s') ]

module _ {S : Type 0} (handler : PeerMessageHandler S) where
  -- `WatchtowerServicer.Heartbeat`, with whether the call ends with the status OK.
  unfoldable pub on_heartbeat : Status → S → (Bool × Status) × S
  on_heartbeat r s =
      let (answer, s') = handler.handle_heartbeat r s in
      elim answer [ ok a ↦ ((true, response a), s') | raise e ↦ ((false, empty_status), s') ]

  -- `WatchtowerServicer.ShareEvent`
  unfoldable pub on_event : EventShare → S → Bool × S
  unfolding rescue
  on_event r = rescue false (handler.handle_event r)

  -- `WatchtowerServicer.ShareTopology`
  unfoldable pub on_topology : TopologyShare → S → Bool × S
  unfolding rescue
  on_topology r = rescue false (handler.handle_topology r)

  -- `WatchtowerServicer.ShareFinding`
  unfoldable pub on_finding : FindingShare → S → (Bool × Bool) × S
  unfolding rescue
  on_finding r = rescue (false, false) (handler.handle_finding r)

-- A dict that has every key.
abbrev pub full_answer : Status → Answer
full_answer s = record {
  hostname = some s.hostname;
  role = some s.role;
  uptime_seconds = some s.uptime_seconds;
  current_severity = some s.current_severity;
  active_finding_count = some s.active_finding_count;
  governor_state = some s.governor_state;
}

module _ {F : Type 0} (now : Moment) where
  -- `PeerManager` as the handler.
  abbrev pub manager_handler : PeerMessageHandler (Manager F)
  manager_handler = record {
    handle_heartbeat = λ r. handle_heartbeat now r >>= λ s. pure (full_answer s);
    handle_event = handle_event now;
    handle_topology = handle_topology now;
    handle_finding = handle_finding now;
  }

  unfoldable pub serve_heartbeat : Status → Manager F → (Bool × Status) × Manager F
  unfolding on_heartbeat
  serve_heartbeat r = on_heartbeat manager_handler r

  unfoldable pub serve_event : EventShare → Manager F → Bool × Manager F
  unfolding on_event
  serve_event r = on_event manager_handler r

  unfoldable pub serve_topology : TopologyShare → Manager F → Bool × Manager F
  unfolding on_topology
  serve_topology r = on_topology manager_handler r

  unfoldable pub serve_finding : FindingShare → Manager F → (Bool × Bool) × Manager F
  unfolding on_finding
  serve_finding r = on_finding manager_handler r
