-- ===== src/Examples/Analysis.antt =====
-- Baselines, verdicts and the governor at concrete samples.
use sonic_watchtower.Prelude.{
  ℕ, ◌≤◌, ◌≡◌, refl, ◌↔◌, true, false, not, ◌&&◌, none, some, [], ◌∷◌, leb, any,
}
use sonic_watchtower.Prelude.Dict.{Dict, lookup}
use sonic_watchtower.Prelude.Float.{exact, exact-IsOrdered}
use sonic_watchtower.Config.{default_anomaly, default_resources}
use sonic_watchtower.Store.{Store, Baseline}
use sonic_watchtower.Store.Baselines
use sonic_watchtower.Prelude.Exec.{ok}
use sonic_watchtower.Governor.Reading.{Proc, lines, read_resources}
use sonic_watchtower.Governor.Reading.Limits.{read_resources-cpu}
use sonic_watchtower.Governor.{Governor, ResourceSnapshot, compute_state}
use sonic_watchtower.Governor
use sonic_watchtower.Governor.Pressure.{rank, compute_state_mono, updates, updates_lem}
use sonic_watchtower.Analyzers.Compare.{analyze, check_port_stats, deviation}
use sonic_watchtower.Analyzers.Compare.Ports.{check_port_stats_lem, analyze_flags}
use sonic_watchtower.Examples.{now, journal, governor}

abbrev row : Baseline ℕ
row = record {
  port = "Ethernet0";
  metric = "rx_errors";
  hour_of_week = 34;
  p50 = 2;
  p95 = 10;
  p99 = 12;
  sample_count = 200;
  updated_at = 900000;
}

abbrev known : Store ℕ
known = record journal { baselines = row ∷ [] }

abbrev stats : Dict ℕ
stats = ("rx_errors", 60) ∷ ("tx_errors", 0) ∷ []

check_port_stats_lem_example :
    ((check_port_stats exact (default_anomaly exact) now "Ethernet0" stats known).0
      ≡ analyze exact (default_anomaly exact) now "Ethernet0" "rx_errors" 60 known ∷ [])
    × (Baselines.sum_samples "Ethernet0" "rx_errors"
          (check_port_stats exact (default_anomaly exact) now "Ethernet0" stats known).1.baselines
        ≡ 201)
unfolding Baselines.sum_samples analyze lookup any Baselines.get Baselines.is_warmed_up
check_port_stats_lem_example =
    check_port_stats_lem exact (default_anomaly exact) now "Ethernet0" stats known "Ethernet0"
      "rx_errors" (refl, tt)

analyze_flags_example :
    (((analyze exact (default_anomaly exact) now "Ethernet0" "rx_errors" 60 known).is_immediate
        && not
            (analyze exact (default_anomaly exact) now "Ethernet0" "rx_errors" 60 known).is_anomaly)
      ≡ false)
    × (((analyze exact (default_anomaly exact) now "Ethernet0" "rx_errors" 60 known).is_anomaly
          ≡ true)
        ↔ ((b : Baseline ℕ) × (Baselines.get now "Ethernet0" "rx_errors" none known ≡ some b)
            × (168 ≤ Baselines.sum_samples "Ethernet0" "rx_errors" known.baselines)
            × (leb 5 (deviation exact 60 b.p95) ≡ true)))
analyze_flags_example =
    analyze_flags exact exact-IsOrdered (default_anomaly exact) refl now "Ethernet0" "rx_errors" 60
      known

abbrev quiet : ResourceSnapshot ℕ
quiet = record {
  watchtower_cpu_percent = 0;
  watchtower_memory_mb = 100;
  system_cpu_percent = 10;
  system_memory_percent = 40;
}

abbrev loaded : ResourceSnapshot ℕ
loaded = record quiet { watchtower_memory_mb = 700; system_cpu_percent = 96 }

compute_state_mono_example :
    rank (compute_state exact (default_resources exact) quiet)
    ≤ rank (compute_state exact (default_resources exact) loaded)
compute_state_mono_example =
    compute_state_mono exact exact-IsOrdered (default_resources exact) quiet loaded (record {
      watchtower_cpu = refl;
      watchtower_memory = refl;
      system_cpu = refl;
      system_memory = refl;
    })

updates_lem_example :
    ((updates exact (quiet ∷ loaded ∷ []) governor).state ≡ Governor.dormant)
    × ((updates exact (quiet ∷ loaded ∷ []) governor).total_state_changes ≡ 1)
    × ((updates exact (quiet ∷ loaded ∷ []) governor).poll_interval_multiplier ≡ 8)
    × ((updates exact (quiet ∷ loaded ∷ []) governor).investigations_deferred ≡ 0)
unfolding Governor.init compute_state
updates_lem_example = updates_lem exact (quiet ∷ loaded ∷ []) governor refl

-- /proc of a small system.
abbrev proc : Proc
proc = record {
  status = lines ("Name:\tpython" ∷ "VmRSS:\t  204800 kB" ∷ []);
  meminfo = lines ("MemTotal: 1000 kB" ∷ "MemAvailable: 400 kB" ∷ []);
  stat = lines ("cpu 10 0 10 60 0" ∷ []);
}

abbrev read_of_proc : ResourceSnapshot ℕ
read_of_proc = record {
  watchtower_cpu_percent = 0;
  watchtower_memory_mb = 200;
  system_cpu_percent = 100;
  system_memory_percent = 100;
}

read_proc : read_resources exact proc ≡ ok read_of_proc
unfolding read_resources
read_proc = refl

read_resources-cpu_example :
    (read_of_proc.watchtower_cpu_percent ≡ 0)
    × (compute_state exact (default_resources exact) read_of_proc
        ≡ compute_state exact
            (record (default_resources exact) { max_cpu_percent = 1; throttle_cpu_percent = 2 })
            read_of_proc)
read_resources-cpu_example =
    read_resources-cpu exact proc read_of_proc (default_resources exact) 1 2 read_proc refl refl
      refl refl
