-- ===== src/Daemon/Cycle/Dormant.antt =====
-- The cycles of a dormant governor (main.py, governor.py).
use sonic_watchtower.Prelude.{◌≡◌, refl, ap, ◌∙◌, false, List, [], ◌∷◌, map, All}
use sonic_watchtower.Prelude.Exec.{Result, ok, raise, continue}
use sonic_watchtower.Prelude.Float.{Float}
use sonic_watchtower.Governor.{Governor, ResourceSnapshot, dormant, compute_state}
use sonic_watchtower.Governor
use sonic_watchtower.Config.{ResourceConfig}
use sonic_watchtower.Governor.Reading.{Proc, read_resources, update_from}
use sonic_watchtower.Governor.Pressure.{updates}
use sonic_watchtower.Daemon.{Daemon, with_manager}
use sonic_watchtower.Daemon.Cycle.{World, collect_if_allowed, poll_cycle, run_cycles}

-- The daemon with its governor updated.
abbrev pub governed : {F : Type 0} → Governor F → Daemon F → Daemon F
governed g d = with_manager (λ m. record m { governor = g }) d

module _ {F : Type 0} (fl : Float F) where
  update-dormant :
      (snap : ResourceSnapshot F) (g : Governor F)
      → compute_state fl g.config snap ≡ dormant
      → (Governor.should_collect (Governor.update fl snap g) ≡ false)
        × ((Governor.update fl snap g).config ≡ g.config)
  unfolding Governor.update Governor.should_collect
  update-dormant snap g h = rw h (refl, refl)

  -- The files of /proc in a world, read as a load for which a governor goes dormant.
  abbrev pub IsCrisis : ResourceConfig F → World F × ResourceSnapshot F → Type 0
  IsCrisis c (w, snap) = (read_resources fl w.proc ≡ ok snap) × (compute_state fl c snap ≡ dormant)

  update_from-read :
      (proc : Proc) (snap : ResourceSnapshot F) (g : Governor F)
      → read_resources fl proc ≡ ok snap
      → update_from fl proc g ≡ (ok tt, Governor.update fl snap g)
  unfolding update_from
  update_from-read proc snap g h =
      ap
        (λ r. elim r as (λ _. Result (Unit {0}) × Governor F) [
          | ok snap ↦ (ok tt, Governor.update fl snap g)
          | raise e ↦ (raise e, g)
        ])
        h

  -- A cycle after its reading of the load.
  pub poll_cycle-read :
      (w : World F) (snap : ResourceSnapshot F) (d : Daemon F)
      → read_resources fl w.proc ≡ ok snap
      → poll_cycle fl w d
        ≡ collect_if_allowed fl w (governed (Governor.update fl snap d.manager.governor) d)
  unfolding poll_cycle
  poll_cycle-read w snap d read =
      ap (λ q. continue q.0 (λ _. collect_if_allowed fl w) (governed q.1 d))
        (update_from-read w.proc snap d.manager.governor read)

  poll_cycle-dormant :
      (w : World F) (snap : ResourceSnapshot F) (d : Daemon F)
      → IsCrisis d.manager.governor.config (w, snap)
      → poll_cycle fl w d ≡ (ok tt, governed (Governor.update fl snap d.manager.governor) d)
  poll_cycle-dormant w snap d (read, crisis) =
      poll_cycle-read w snap d read
      ∙ unfold collect_if_allowed in rw ((update-dormant snap d.manager.governor crisis).0) refl

  -- As long as the load that every cycle reads is one for which the governor goes dormant, a run of
  -- cycles updates the governor and does nothing else: nothing is collected, recorded or reported, and
  -- no peer is sent anything, heartbeats included.
  pub run_cycles-dormant :
      (ws : List (World F × ResourceSnapshot F)) (d : Daemon F)
      → All (IsCrisis d.manager.governor.config) ws
      → run_cycles fl (map (λ p. p.0) ws) d
        ≡ governed (updates fl (map (λ p. p.1) ws) d.manager.governor) d
  unfolding run_cycles
  run_cycles-dormant [] d h = refl
  run_cycles-dormant ((w, snap) ∷ ws) d (h, hs) =
      ap (λ p. run_cycles fl (map (λ p. p.0) ws) p.1) (poll_cycle-dormant w snap d h)
      ∙ run_cycles-dormant ws (governed (Governor.update fl snap d.manager.governor) d)
          (rw (update-dormant snap d.manager.governor h.1).1 hs)
