-- ===== src/Governor.antt =====
-- governor.py: the resource governor, from a snapshot of the resources to a state of operation.
-- Floats are an interface.
pub mod Pressure
pub mod Reading
use sonic_watchtower.Prelude.{ℕ, ◌+◌, String, Bool, true, false, not, ◌||◌, if◌then◌else◌}
use sonic_watchtower.Prelude.Float.{Float}
use sonic_watchtower.Config.{ResourceConfig}

pub data GovernorState : Type 0 where
  full throttled paused dormant : GovernorState

-- `GovernorState.value`
abbrev pub value : GovernorState → String
value full = "full"
value throttled = "throttled"
value paused = "paused"
value dormant = "dormant"

-- `==` of the enum.
abbrev pub same_state : GovernorState → GovernorState → Bool
same_state full full = true
same_state throttled throttled = true
same_state paused paused = true
same_state dormant dormant = true
same_state _ _ = false

pub record ResourceSnapshot (F : Type 0) : Type 0 where
  pub watchtower_cpu_percent : F
  pub watchtower_memory_mb : F
  pub system_cpu_percent : F
  pub system_memory_percent : F

pub record Governor (F : Type 0) : Type 0 where
  pub config : ResourceConfig F
  pub state : GovernorState
  pub last_snapshot : ResourceSnapshot F
  pub poll_interval_multiplier : ℕ
  pub investigations_deferred : ℕ
  pub total_state_changes : ℕ

module _ {F : Type 0} where
  unfoldable pub can_investigate : Governor F → Bool
  can_investigate g = same_state g.state full || same_state g.state throttled

  unfoldable pub can_run_llm : Governor F → Bool
  can_run_llm g = same_state g.state full

  unfoldable pub should_collect : Governor F → Bool
  should_collect g = not (same_state g.state dormant)

  unfoldable pub defer_investigation : Governor F → Governor F
  defer_investigation g = record g { investigations_deferred = g.investigations_deferred + 1 }

-- The chain of tests at the end of `update`.
abbrev pub multiplier : GovernorState → ℕ
multiplier s =
    if same_state s full
    then 1
    else if same_state s throttled
    then 2
    else if same_state s paused
    then 4
    else 8

module _ {F : Type 0} (fl : Float F) where
  open fl use {flt, of_ℕ}

  -- `ResourceGovernor.__init__`
  unfoldable pub init : ResourceConfig F → Governor F
  init config = record {
    config = config;
    state = full;
    last_snapshot = record {
      watchtower_cpu_percent = of_ℕ 0;
      watchtower_memory_mb = of_ℕ 0;
      system_cpu_percent = of_ℕ 0;
      system_memory_percent = of_ℕ 0;
    };
    poll_interval_multiplier = 1;
    investigations_deferred = 0;
    total_state_changes = 0;
  }

  -- `ResourceGovernor._compute_state`; `a > b` is `flt b a`.
  unfoldable pub compute_state : ResourceConfig F → ResourceSnapshot F → GovernorState
  compute_state cfg snap =
      if flt (of_ℕ 95) snap.system_cpu_percent || flt (of_ℕ 95) snap.system_memory_percent
      then dormant
      else if flt cfg.system_cpu_ceiling snap.system_cpu_percent
          || flt cfg.system_memory_ceiling snap.system_memory_percent
          || flt cfg.max_cpu_percent snap.watchtower_cpu_percent
          || flt cfg.max_memory_mb snap.watchtower_memory_mb
      then paused
      else if flt cfg.throttle_cpu_percent snap.watchtower_cpu_percent
          || flt cfg.throttle_memory_mb snap.watchtower_memory_mb
      then throttled
      else full

  -- `ResourceGovernor.update`, with the snapshot at hand.
  unfoldable pub update : ResourceSnapshot F → Governor F → Governor F
  unfolding compute_state
  update snap g =
      let new = compute_state g.config snap in
      record g {
        last_snapshot = snap;
        state = new;
        total_state_changes =
            if same_state new g.state then g.total_state_changes else g.total_state_changes + 1;
        poll_interval_multiplier = multiplier new;
      }
