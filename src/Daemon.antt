-- ===== src/Daemon.antt =====
-- main.py: the daemon over its parts. The manager of the peer protocol holds the journal, the
-- governor and the configuration, which the Python objects share.
pub mod Checks
pub mod Changes
pub mod Collecting
pub mod Starting
pub mod Cycle
pub mod Loop
pub mod Invariant
use sonic_watchtower.Prelude.{ℕ, String, Option, none, some, List, []}
use sonic_watchtower.Prelude.Clock.{Moment}
use sonic_watchtower.Prelude.Dict.{Dict}
use sonic_watchtower.Prelude.Exec.{Exec, zoom}
use sonic_watchtower.Prelude.Float.{Float}
use sonic_watchtower.Config.{WatchtowerConfig}
use sonic_watchtower.Store.{Store}
use sonic_watchtower.Governor
use sonic_watchtower.Analyzers.Diff.{Info}
use sonic_watchtower.Output.Syslog.{Emitter}
use sonic_watchtower.Output.Syslog
use sonic_watchtower.Peer.{Manager}
use sonic_watchtower.Peer.Calls

pub record Daemon (F : Type 0) : Type 0 where
  pub manager : Manager F
  pub syslog : Emitter
  -- the text of the banner file
  pub banner : Option String
  -- `topology_diff._last_snapshot`
  pub last_snapshot : Option (Dict Info)
  pub last_bgp_states : Dict String
  pub last_oper_states : Dict String

pub record BgpSession : Type 0 where
  pub state : String
  pub description : String

-- What the five collectors return; `none` where one raises.
pub record Collected (F : Type 0) : Type 0 where
  pub port_stats : Option (Dict (Dict ℕ))
  pub iface_state : Option (Dict String)
  pub lldp : Option (Dict Info)
  pub bgp : Option (Dict BgpSession)
  pub optic : Option (Dict (Option F))

-- `_safe_collect`
abbrev pub safe_collect : {A : Type 0} → Option (Dict A) → Dict A
safe_collect none = []
safe_collect (some d) = d

module _ {F : Type 0} where
  abbrev pub on_manager : {A : Type 0} → Exec (Manager F) A → Exec (Daemon F) A
  on_manager = zoom (λ d. d.manager) (λ d m. record d { manager = m })

  abbrev pub on_journal : {A : Type 0} → Exec (Store F) A → Exec (Daemon F) A
  on_journal m = on_manager (Calls.on_store m)

  abbrev pub with_manager : (Manager F → Manager F) → Daemon F → Daemon F
  with_manager f d = record d { manager = f d.manager }

  -- `WatchtowerDaemon.__init__`, on an opened journal.
  unfoldable pub init : Float F → ℕ → WatchtowerConfig F → Store F → Daemon F
  init fl now config journal = record {
    manager = Calls.init now config journal (Governor.init fl config.resources);
    syslog = Syslog.init config.syslog;
    banner = none;
    last_snapshot = none;
    last_bgp_states = [];
    last_oper_states = [];
  }
