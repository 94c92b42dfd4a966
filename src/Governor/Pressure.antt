-- ===== src/Governor/Pressure.antt =====
-- The states of governor.py by severity: what each allows, how they follow the load, and what a run
-- of updates leaves.
use Prim.Native.Nat.{◌^◌}
use sonic_watchtower.Prelude.{
  ℕ, ◌+◌, ◌≤◌, ◌≡◌, refl, ◌∙◌, Bool, true, List, [], ◌∷◌, arith, leb, if◌then◌else◌,
}
use sonic_watchtower.Prelude.Float.{Float, IsOrdered}
use sonic_watchtower.Config.{ResourceConfig}
use sonic_watchtower.Governor.{
  GovernorState, full, throttled, paused, dormant, Governor, ResourceSnapshot, same_state,
  multiplier, can_investigate, can_run_llm, should_collect, compute_state, update,
}

-- How severe a state is.
abbrev pub rank : GovernorState → ℕ
rank full = 0
rank throttled = 1
rank paused = 2
rank dormant = 3

-- One snapshot shows no more load than another.
pub record Calmer {F : Type 0} (fl : Float F) (a b : ResourceSnapshot F) : Type 0 where
  pub watchtower_cpu : fl.fle a.watchtower_cpu_percent b.watchtower_cpu_percent ≡ true
  pub watchtower_memory : fl.fle a.watchtower_memory_mb b.watchtower_memory_mb ≡ true
  pub system_cpu : fl.fle a.system_cpu_percent b.system_cpu_percent ≡ true
  pub system_memory : fl.fle a.system_memory_percent b.system_memory_percent ≡ true

module _ {F : Type 0} (fl : Float F) (o : IsOrdered fl) (cfg : ResourceConfig F) where
  open fl use {of_ℕ}

  -- More load never gives a less severe state.
  pub compute_state_mono :
      (a b : ResourceSnapshot F)
      → Calmer fl a b
      → rank (compute_state fl cfg a) ≤ rank (compute_state fl cfg b)
  unfolding compute_state
  compute_state_mono a b c = ground (
    arith,
    o.flt_of_flt-fle (of_ℕ 95) a.system_cpu_percent b.system_cpu_percent,
    o.flt_of_flt-fle (of_ℕ 95) a.system_memory_percent b.system_memory_percent,
    o.flt_of_flt-fle cfg.system_cpu_ceiling a.system_cpu_percent b.system_cpu_percent,
    o.flt_of_flt-fle cfg.system_memory_ceiling a.system_memory_percent b.system_memory_percent,
    o.flt_of_flt-fle cfg.max_cpu_percent a.watchtower_cpu_percent b.watchtower_cpu_percent,
    o.flt_of_flt-fle cfg.max_memory_mb a.watchtower_memory_mb b.watchtower_memory_mb,
    o.flt_of_flt-fle cfg.throttle_cpu_percent a.watchtower_cpu_percent b.watchtower_cpu_percent,
    o.flt_of_flt-fle cfg.throttle_memory_mb a.watchtower_memory_mb b.watchtower_memory_mb,
    c.watchtower_cpu,
    c.watchtower_memory,
    c.system_cpu,
    c.system_memory,
  )

module _ {F : Type 0} where
  -- Each permission is given exactly up to one severity: the LLM in full operation only,
  -- investigations up to throttled, collection up to paused.
  pub permissions_by_rank :
      (g : Governor F)
      → (can_run_llm g ≡ leb (rank g.state) 0)
        × (can_investigate g ≡ leb (rank g.state) 1)
        × (should_collect g ≡ leb (rank g.state) 2)
  unfolding can_run_llm can_investigate should_collect
  permissions_by_rank g = ground arith

-- A run of updates.
abbrev pub updates : {F : Type 0} → Float F → List (ResourceSnapshot F) → Governor F → Governor F
updates fl [] g = g
updates fl (snap ∷ snaps) g = updates fl snaps (update fl snap g)

module _ {F : Type 0} (fl : Float F) (cfg : ResourceConfig F) where
  -- The state after the snapshots, from the state before them.
  abbrev pub last_state : GovernorState → List (ResourceSnapshot F) → GovernorState
  last_state st [] = st
  last_state st (snap ∷ snaps) = last_state (compute_state fl cfg snap) snaps

  -- How often the state differs from the one before.
  abbrev pub changes : GovernorState → List (ResourceSnapshot F) → ℕ
  changes st [] = 0
  changes st (snap ∷ snaps) =
      (if same_state (compute_state fl cfg snap) st then 0 else 1)
      + changes (compute_state fl cfg snap) snaps

multiplier-rank : (st : GovernorState) → multiplier st ≡ 2 ^ rank st
multiplier-rank full = refl
multiplier-rank throttled = refl
multiplier-rank paused = refl
multiplier-rank dormant = refl

module _ {F : Type 0} (fl : Float F) where
  -- After any run of updates the state is that of the last snapshot, the counter has grown by the
  -- number of updates that changed the state, the multiplier is 2 to the severity of the state if it
  -- was so before, and the deferred investigations are untouched.
  pub updates_lem :
      (snaps : List (ResourceSnapshot F)) (g : Governor F)
      → g.poll_interval_multiplier ≡ 2 ^ rank g.state
      → ((updates fl snaps g).state ≡ last_state fl g.config g.state snaps)
        × ((updates fl snaps g).total_state_changes
            ≡ g.total_state_changes + changes fl g.config g.state snaps)
        × ((updates fl snaps g).poll_interval_multiplier
            ≡ 2 ^ rank (last_state fl g.config g.state snaps))
        × ((updates fl snaps g).investigations_deferred ≡ g.investigations_deferred)
  unfolding update
  updates_lem [] g m = (refl, omega arith, m, refl)
  updates_lem (snap ∷ snaps) g m =
      let new : GovernorState = compute_state fl g.config snap in
      let rest = updates_lem snaps (update fl snap g) (multiplier-rank new) in
      (
        rest.0,
        rest.1
            ∙ one_more g.total_state_changes (changes fl g.config new snaps)
                (same_state new g.state),
        rest.2,
        rest.3,
      )
    where
      one_more :
          (t n : ℕ) (same : Bool)
          → (if same then t else t + 1) + n ≡ t + ((if same then 0 else 1) + n)
      one_more t n same = ground arith
