-- ===== src/Peer/ClientCalls.antt =====
-- The calls of `PeerClient` (peer/client.py) against the servicer of the peer. gRPC is not the
-- program's: an outcome says what becomes of a call, and the state is that of the peer's manager.
pub mod Retrying
use sonic_watchtower.Prelude.{String, Bool, true, false, Option, none, some, map}
use sonic_watchtower.Prelude.Clock.{Moment}
use sonic_watchtower.Prelude.Exec.{
  Exec, Result, ok, raise, Error, rpc_error, operational_error, integrity_error, runtime_error,
  value_error, index_error, zero_division_error, os_error,
}
use sonic_watchtower.Store.Peers.{Link}
use sonic_watchtower.Peer.{Manager, Status, EventShare, TopologyShare, FindingShare}
use sonic_watchtower.Peer.Server.{serve_heartbeat, serve_event, serve_topology, serve_finding}

-- A call is answered; or it never reaches the peer; or the peer serves it, and the answer does not
-- come back in time. The last two raise RpcError at the caller.
pub data Outcome : Type 0 where
  answered unreached unanswered : Outcome

-- A call of the stub, with what the peer's servicer does.
abbrev pub call : {S A : Type 0} → Outcome → (S → A × S) → Exec S A
call answered serve s = let (a, s') = serve s in (ok a, s')
call unreached serve s = (raise rpc_error, s)
call unanswered serve s = let (_, s') = serve s in (raise rpc_error, s')

-- `except grpc.RpcError: return fallback`
abbrev pub on_rpc_error : {A : Type 0} → A → Result A → Result A
on_rpc_error fallback (ok a) = ok a
on_rpc_error fallback (raise rpc_error) = ok fallback
on_rpc_error fallback (raise integrity_error) = raise integrity_error
on_rpc_error fallback (raise operational_error) = raise operational_error
on_rpc_error fallback (raise runtime_error) = raise runtime_error
on_rpc_error fallback (raise value_error) = raise value_error
on_rpc_error fallback (raise index_error) = raise index_error
on_rpc_error fallback (raise zero_division_error) = raise zero_division_error
on_rpc_error fallback (raise os_error) = raise os_error

-- The answer to a heartbeat; a status other than OK raises at the caller.
abbrev pub heartbeat_answer : Result (Bool × Status) → Result (Option Status)
heartbeat_answer (ok (true, s)) = ok (some s)
heartbeat_answer (ok (false, s)) = raise rpc_error
heartbeat_answer (raise e) = raise e

-- `n.get("link_state", "up")`
abbrev pub with_link_state : Link → Link
with_link_state l = record l {
  link_state = elim l.link_state [ none ↦ some "up" | some s ↦ some s ];
}

module _ {F : Type 0} where
  -- `send_heartbeat`
  unfoldable pub send_heartbeat : Outcome → Moment → Status → Exec (Manager F) (Option Status)
  unfolding serve_heartbeat
  send_heartbeat o now request peer =
      let (r, peer') = call o (serve_heartbeat now request) peer in
      (on_rpc_error none (heartbeat_answer r), peer')

  -- `share_event`
  unfoldable pub share_event : Outcome → Moment → EventShare → Exec (Manager F) Bool
  unfolding serve_event
  share_event o now request peer =
      let (r, peer') = call o (serve_event now request) peer in (on_rpc_error false r, peer')

  -- `share_topology`
  unfoldable pub share_topology : Outcome → Moment → TopologyShare → Exec (Manager F) Bool
  unfolding serve_topology
  share_topology o now request peer =
      let entries = map with_link_state request.neighbors in
      let (r, peer') = call o (serve_topology now (record request { neighbors = entries })) peer in
      (on_rpc_error false r, peer')

  -- `share_finding`
  unfoldable pub share_finding : Outcome → Moment → FindingShare → Exec (Manager F) (Bool × Bool)
  unfolding serve_finding
  share_finding o now request peer =
      let (r, peer') = call o (serve_finding now request) peer in
      (on_rpc_error (false, false) r, peer')
