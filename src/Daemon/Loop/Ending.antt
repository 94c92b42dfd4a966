-- ===== src/Daemon/Loop/Ending.antt =====
-- How a signal ends the loop of main.py.
use sonic_watchtower.Prelude.{
  ℕ, ◌-◌, ◌≡◌, refl, ap, ◌∙◌, true, false, List, [], ◌∷◌, ◌++◌, map, arith, if◌then◌else◌, All,
}
use sonic_watchtower.Prelude.Exec.{Exec, ok, continue, modify, gets, pure, ◌>>=◌, ◌>>◌}
use sonic_watchtower.Prelude.Float.{Float}
use sonic_watchtower.Peer.{System}
use sonic_watchtower.Peer.Calls
use sonic_watchtower.Daemon.{Daemon, on_manager, with_manager}
use sonic_watchtower.Daemon.Cycle.{poll_cycle, run_cycles}
use sonic_watchtower.Daemon.Loop.{Round, runs_on, is_last, interval, pause, run_loop, run}

module _ {F : Type 0} (fl : Float F) where
  -- The daemon after all cycles of some rounds.
  abbrev pub cycled : List (Round F) → Daemon F → Daemon F
  cycled rs d = run_cycles fl (map (λ r. r.world) rs) d

  pause_lem :
      (r : Round F) (d : Daemon F)
      → pause fl r d ≡ (if runs_on r.signal then interval fl d - r.elapsed else 0)
  unfolding pause
  pause_lem r d = ground arith

  run_loop_lem :
      (before : List (Round F)) (last : Round F) (after : List (Round F)) (d : Daemon F)
      → All (λ r. is_last r.signal ≡ false) before
      → is_last last.signal ≡ true
      → run_loop fl (before ++ last ∷ after) d ≡ (
        (run_loop fl before d).0 ++ pause fl last (cycled (before ++ last ∷ []) d) ∷ [],
        cycled (before ++ last ∷ []) d,
      )
  unfolding run_loop run_cycles
  run_loop_lem [] last after d p e = rw e refl
  run_loop_lem (r ∷ before) last after d p e = rw p.0 (
      ap (λ q. (pause fl r (poll_cycle fl r.world d).1 ∷ q.0, q.1))
        (run_loop_lem before last after (poll_cycle fl r.world d).1 p.1 e))

  -- If the peer protocol starts without an exception, the first round in which a signal arrives is
  -- the last one, whatever would come after it: every round up to it has its cycle, the rounds
  -- before it have the pauses that they have without it, a signal in the cycle lets the daemon
  -- sleep no more, one in the sleep leaves it its full length, and the peer protocol is stopped.
  pub run-ends :
      (sys : System) (before : List (Round F)) (last : Round F) (after : List (Round F))
      (d started : Daemon F)
      → on_manager (Calls.start sys) d ≡ (ok tt, started)
      → All (λ r. is_last r.signal ≡ false) before
      → is_last last.signal ≡ true
      → (stopped : Daemon F) × (stopped ≡ cycled (before ++ last ∷ []) started)
        × (run fl sys (before ++ last ∷ after) d ≡ (
          ok (
              (run_loop fl before started).0
              ++ (if runs_on last.signal then interval fl stopped - last.elapsed else 0) ∷ []),
          with_manager Calls.stop stopped,
        ))
  unfolding run
  run-ends sys before last after d started s p e = (
    cycled (before ++ last ∷ []) started,
    refl,
    ap (λ q. continue q.0 ending q.1) s
        ∙ ap (λ q. (ok q.0, with_manager Calls.stop q.1))
            (run_loop_lem before last after started p e)
        ∙ ap
            (λ n. (
              ok ((run_loop fl before started).0 ++ n ∷ []),
              with_manager Calls.stop (cycled (before ++ last ∷ []) started),
            ))
            (pause_lem last (cycled (before ++ last ∷ []) started)),
  )
    where
      ending : Unit {0} → Exec (Daemon F) (List ℕ)
      ending _ = do
        pauses ← gets (λ d. (run_loop fl (before ++ last ∷ after) d).0)
        modify (λ d. (run_loop fl (before ++ last ∷ after) d).1)
        modify (with_manager Calls.stop)
        pure pauses
