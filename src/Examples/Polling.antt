-- ===== src/Examples/Polling.antt =====
-- The daemon's checks and cycles, at concrete data.
use sonic_watchtower.Prelude.{
  ℕ, ◌+◌, ◌-◌, String, ◌≡◌, refl, Option, none, some, true, List, [], ◌∷◌, ◌++◌, count, length,
  if◌then◌else◌,
}
use sonic_watchtower.Prelude.Dict.{Dict, lookup, has_key}
use sonic_watchtower.Prelude.Exec.{ok, raise, for_each}
use sonic_watchtower.Prelude.Float.{exact}
use sonic_watchtower.Governor.{ResourceSnapshot}
use sonic_watchtower.Governor
use sonic_watchtower.Governor.Pressure.{updates}
use sonic_watchtower.Governor.Reading.{Proc, lines, read_resources}
use sonic_watchtower.Analyzers.Diff.{Info, changes}
use sonic_watchtower.Analyzers.Diff.Replay.{replay, lookup-replay}
use sonic_watchtower.Report.{FindingData}
use sonic_watchtower.Store.Findings.{new_finding, has_id}
use sonic_watchtower.Daemon.{init, with_manager, Daemon, BgpSession, Collected, safe_collect}
use sonic_watchtower.Daemon.Checks.{announce, emit, share}
use sonic_watchtower.Daemon.Checks.Outcome.{announce_lem, calls}
use sonic_watchtower.Output.Syslog.Lines.{line}
use sonic_watchtower.Prelude.{◌⊎◌, false}
use sonic_watchtower.Prelude.Exec.{integrity_error}
use sonic_watchtower.Daemon.Checks.Announcing.{next_id, counted}
use sonic_watchtower.Daemon.Changes.{check_link_changes}
use sonic_watchtower.Daemon.Changes.Settled.{check_link_changes-settles}
use sonic_watchtower.Daemon.Changes.Counting.{check_link_changes-filed, filed_count}
use sonic_watchtower.Daemon.Changes.Tracked.{seen_state}
use sonic_watchtower.Daemon.Cycle.{poll_cycle, World, run_cycles}
use sonic_watchtower.Daemon.Loop.{Round, no_signal, in_sleep, interval, run_loop, run}
use sonic_watchtower.Daemon.Loop.Ending.{cycled, run-ends}
use sonic_watchtower.Daemon.Cycle.Dormant.{governed, run_cycles-dormant}
use sonic_watchtower.Output.Syslog
use sonic_watchtower.Daemon.Invariant.{IsSound}
use sonic_watchtower.Daemon.Invariant.Reach.{here, next, cycle, hear_finding, Reach-IsSound}
use sonic_watchtower.Peer.Calls
use sonic_watchtower.Peer.Server.{serve_finding}
use sonic_watchtower.Examples.{share as message, journal, now, later, config, manager}

abbrev spine_port : Info
spine_port = record { neighbor_hostname = "spine1"; neighbor_port = "Ethernet4" }

abbrev pub neighbors : Dict Info
neighbors = ("Ethernet0", spine_port) ∷ []

abbrev pub daemon : Daemon ℕ
daemon = record {
  manager = manager;
  syslog = Syslog.init config.syslog;
  banner = none;
  last_snapshot = some neighbors;
  last_bgp_states = ("10.0.0.1", "Established") ∷ [];
  last_oper_states = ("Ethernet0", "up") ∷ ("Ethernet4", "up") ∷ [];
}

abbrev fd : FindingData
fd = record { severity = "warning"; summary = "Ethernet0 down"; detail = "Ethernet0 down" }

announce_lem_example :
    ((has_id (next_id now daemon) daemon.manager.store ≡ true)
      × (announce now "link_change" "Ethernet0" "Ethernet0" none fd daemon
          ≡ (raise integrity_error, counted daemon)))
    ⊎ ((has_id (next_id now daemon) daemon.manager.store ≡ false)
        × (d' : Daemon ℕ) × (announce now "link_change" "Ethernet0" "Ethernet0" none fd daemon
            ≡ (ok tt, d'))
        × (d'.manager.store.findings
            ≡ new_finding 1000000 "warning" "Ethernet0 down"
                (some "Ethernet0 down")
                none
                (next_id now daemon)
              ∷ [])
        × (d'.syslog.emitted ≡ line (next_id now daemon) fd ∷ [])
        × (d'.manager.outbox
            ≡ calls now "link_change" "Ethernet0" "Ethernet0"
                (next_id now daemon)
                fd
                daemon.manager))
unfolding sonic_watchtower.Peer.Calls.init sonic_watchtower.Output.Syslog.init
announce_lem_example =
    announce_lem now "link_change" "Ethernet0" "Ethernet0" none fd daemon refl refl

abbrev ifaces : Dict String
ifaces = ("Ethernet0", "down") ∷ ("Ethernet4", "up") ∷ []

check_link_changes-settles_example :
    (lookup "Ethernet0" (check_link_changes now ifaces neighbors daemon).1.last_oper_states
      ≡ some "down")
    × (check_link_changes later ifaces [] (check_link_changes now ifaces neighbors daemon).1
        ≡ (ok tt, (check_link_changes now ifaces neighbors daemon).1))
unfolding has_key check_link_changes sonic_watchtower.Prelude.Exec.for_each lookup
    sonic_watchtower.Daemon.Checks.report sonic_watchtower.Store.Events.record_event
    sonic_watchtower.Report.finding_from_link_change sonic_watchtower.Daemon.Checks.create_finding
    sonic_watchtower.Store.Findings.create sonic_watchtower.Prelude.any
    sonic_watchtower.Peer.Calls.init sonic_watchtower.Prelude.Dict.insert share emit
check_link_changes-settles_example =
    check_link_changes-settles now later ifaces neighbors [] "Ethernet0" daemon (refl, (refl, tt))
      refl

check_link_changes-filed_example :
    filed_count (check_link_changes now ifaces neighbors daemon).1 ≡ 1
unfolding has_key check_link_changes sonic_watchtower.Prelude.Exec.for_each lookup
    sonic_watchtower.Daemon.Checks.report sonic_watchtower.Store.Events.record_event
    sonic_watchtower.Report.finding_from_link_change sonic_watchtower.Daemon.Checks.create_finding
    sonic_watchtower.Store.Findings.create sonic_watchtower.Prelude.any
    sonic_watchtower.Peer.Calls.init sonic_watchtower.Prelude.Dict.insert share emit
    sonic_watchtower.Daemon.Changes.Tracked.moved_in
check_link_changes-filed_example =
    check_link_changes-filed now ifaces neighbors daemon (refl, (refl, tt)) refl

abbrev sessions : Dict BgpSession
sessions = ("10.0.0.1", record { state = "Idle"; description = "spine1" }) ∷ []

abbrev recabled : Dict Info
recabled =
    ("Ethernet0", record spine_port { neighbor_port = "Ethernet8" })
    ∷ ("Ethernet4", spine_port)
    ∷ []

lookup-replay_example :
    lookup "Ethernet4" (replay (changes neighbors recabled) neighbors) ≡ some spine_port
unfolding has_key lookup
lookup-replay_example = lookup-replay neighbors recabled "Ethernet4" (refl, (refl, tt))

-- /proc of a system whose processors are all busy, and of one with room.
abbrev crowded : Proc
crowded = record {
  status = lines ("VmRSS:\t  102400 kB" ∷ []);
  meminfo = lines ("MemTotal: 1000 kB" ∷ "MemAvailable: 500 kB" ∷ []);
  stat = lines ("cpu 99 0 0 1 0" ∷ []);
}

abbrev roomy : Proc
roomy = record {
  status = lines ("VmRSS:\t  102400 kB" ∷ []);
  meminfo = lines ("MemTotal: 1000 kB" ∷ "MemAvailable: 1000 kB" ∷ []);
  stat = lines ("cpu 0 0 0 10 0" ∷ []);
}

abbrev idle : ResourceSnapshot ℕ
idle = record {
  watchtower_cpu_percent = 0;
  watchtower_memory_mb = 100;
  system_cpu_percent = 0;
  system_memory_percent = 0;
}

abbrev full : ResourceSnapshot ℕ
full = record idle { system_cpu_percent = 100; system_memory_percent = 100 }

reads : (read_resources exact crowded ≡ ok full) × (read_resources exact roomy ≡ ok idle)
unfolding read_resources
reads = (refl, refl)

abbrev world : World ℕ
world = record {
  now = now;
  proc = crowded;
  collected = record {
    port_stats = none;
    iface_state = none;
    lldp = none;
    bgp = none;
    optic = none;
  };
  system = record { exists = λ p. true; readable = λ p. true; getaddrinfo = λ h port. none };
  reply = λ host. none;
  banner_writable = true;
}

run_cycles-dormant_example :
    run_cycles exact (world ∷ world ∷ []) daemon
    ≡ governed (updates exact (full ∷ full ∷ []) daemon.manager.governor) daemon
unfolding sonic_watchtower.Governor.compute_state
run_cycles-dormant_example =
    run_cycles-dormant exact ((world, full) ∷ (world, full) ∷ []) daemon
      ((reads.0, refl), ((reads.0, refl), tt))

abbrev quiet_round : Round ℕ
quiet_round = record { world = world; elapsed = 2; signal = no_signal }

abbrev last_round : Round ℕ
last_round = record { world = world; elapsed = 3; signal = in_sleep }

abbrev serving : Daemon ℕ
serving = record daemon { manager = record daemon.manager { serving = true } }

run-ends_example :
    (stopped : Daemon ℕ) × (stopped ≡ cycled exact (quiet_round ∷ last_round ∷ []) serving)
    × (run exact world.system (quiet_round ∷ last_round ∷ quiet_round ∷ []) daemon ≡ (
      ok ((run_loop exact (quiet_round ∷ []) serving).0 ++ (interval exact stopped - 3) ∷ []),
      with_manager Calls.stop stopped,
    ))
unfolding sonic_watchtower.Peer.Calls.start sonic_watchtower.Peer.Calls.init
run-ends_example =
    run-ends exact world.system (quiet_round ∷ []) last_round (quiet_round ∷ []) daemon serving refl
      (refl, tt) refl

abbrev busy_world : World ℕ
busy_world = record world {
  proc = roomy;
  collected = record {
    port_stats = some (("Ethernet0", ("rx_errors", 7) ∷ []) ∷ []);
    iface_state = some ifaces;
    lldp = some recabled;
    bgp = some sessions;
    optic = none;
  };
}

Reach-IsSound_example : IsSound (
    with_manager
      (λ m. (serve_finding later message m).1)
      (poll_cycle exact busy_world (init exact 0 config journal)).1)
Reach-IsSound_example =
    Reach-IsSound exact 0 config (next (next here (cycle busy_world)) (hear_finding later message))

-- A cycle of a daemon without peers, whose LLDP collector raises.
abbrev deaf_world : World ℕ
deaf_world = record world { proc = roomy }

abbrev alone : Daemon ℕ
alone = record daemon { manager = record manager { enabled = false; clients = [] } }

abbrev calm : Daemon ℕ
calm = governed (Governor.update exact idle alone.manager.governor) alone
