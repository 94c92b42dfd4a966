-- ===== src/Daemon/Loop.antt =====
-- `run` of main.py: the loop of cycles with its sleeps, and the signal that ends it.
pub mod Ending
use sonic_watchtower.Prelude.{
  ℕ, ◌-◌, ◌*◌, Bool, true, false, ◌&&◌, List, [], ◌∷◌, ltb, if◌then◌else◌,
}
use sonic_watchtower.Prelude.Exec.{Exec, Result, ok, raise, modify, gets, pure, ◌>>=◌, ◌>>◌}
use sonic_watchtower.Prelude.Float.{Float}
use sonic_watchtower.Peer.{Manager, System}
use sonic_watchtower.Peer.Calls
use sonic_watchtower.Daemon.{Daemon, on_manager, with_manager}
use sonic_watchtower.Daemon.Cycle.{World, poll_cycle}

-- Whether `_handle_signal` runs in a round of the loop, and when: before the test for the sleep, or
-- after it. `time.sleep` goes on after a handler that returns.
pub data Signal : Type 0 where
  no_signal in_cycle in_sleep : Signal

-- What one round meets.
pub record Round (F : Type 0) : Type 0 where
  pub world : World F
  -- the seconds that the cycle takes
  pub elapsed : ℕ
  pub signal : Signal

-- `_running` at the test for the sleep.
abbrev pub runs_on : Signal → Bool
runs_on no_signal = true
runs_on in_cycle = false
runs_on in_sleep = true

-- `_running` at the test of the loop.
abbrev pub is_last : Signal → Bool
is_last no_signal = false
is_last in_cycle = true
is_last in_sleep = true

module _ {F : Type 0} (fl : Float F) where
  -- The seconds from the start of a cycle to the next.
  abbrev pub interval : Daemon F → ℕ
  interval d = d.manager.config.poll_interval * d.manager.governor.poll_interval_multiplier

  -- The seconds that the round sleeps: `max(0, interval - elapsed)`, or not at all.
  unfoldable pub pause : Round F → Daemon F → ℕ
  pause r d =
      let sleep_time = interval d - r.elapsed in
      if ltb 0 sleep_time && runs_on r.signal then sleep_time else 0

  -- The loop, as long as there are rounds: the pause of each round, and the daemon that it leaves.
  unfoldable pub run_loop : List (Round F) → Daemon F → List ℕ × Daemon F
  unfolding pause poll_cycle
  run_loop [] d = ([], d)
  run_loop (r ∷ rs) d =
      let d' = (poll_cycle fl r.world d).1 in
      let rest = run_loop rs d' in
      if is_last r.signal then (pause r d' ∷ [], d') else (pause r d' ∷ rest.0, rest.1)

  -- `run`: the peer protocol starts, and stops after the last round. An exception of the start ends it.
  unfoldable pub run : System → List (Round F) → Exec (Daemon F) (List ℕ)
  unfolding run_loop
  run sys rs = do
    on_manager (Calls.start sys)
    pauses ← gets (λ d. (run_loop rs d).0)
    modify (λ d. (run_loop rs d).1)
    modify (with_manager Calls.stop)
    pure pauses
