-- ===== src/Config.antt =====
-- config.py: the configuration as dataclasses with their defaults, and the merge of overrides.
pub mod Merge
use sonic_watchtower.Prelude.{ℕ, String, Bool, true, false, ◌||◌, ◌==◌, if◌then◌else◌}
use sonic_watchtower.Prelude.Float.{Float}

pub record ResourceConfig (F : Type 0) : Type 0 where
  pub max_cpu_percent : F
  pub max_memory_mb : F
  pub max_disk_mb : ℕ
  pub throttle_cpu_percent : F
  pub throttle_memory_mb : F
  pub system_cpu_ceiling : F
  pub system_memory_ceiling : F

pub record AnomalyConfig (F : Type 0) : Type 0 where
  pub deviation_threshold : F
  pub immediate_threshold : F
  pub baseline_warmup_hours : ℕ

pub record SyslogConfig : Type 0 where
  pub enabled : Bool
  pub facility : String
  pub min_severity : String
  pub include_peer_findings : Bool

pub record BannerConfig : Type 0 where
  pub enabled : Bool
  pub max_lines : ℕ
  pub findings_file : String
  pub show_all_clear : Bool

pub record TlsConfig : Type 0 where
  pub cert : String
  pub key : String
  pub ca : String

pub record PeerConfig : Type 0 where
  pub enabled : Bool
  pub port : ℕ
  pub tls : TlsConfig
  pub verify_hostname : Bool
  pub heartbeat_interval : ℕ
  pub topology_share_interval : ℕ
  pub finding_ttl : ℕ

pub record HierarchyConfig : Type 0 where
  pub role : String
  pub priority : ℕ

pub record LlmConfig : Type 0 where
  pub enabled : Bool
  pub backend : String
  pub model_path : String
  pub max_tool_calls : ℕ
  pub max_output_tokens : ℕ
  pub max_concurrent_investigations : ℕ
  pub context_size : ℕ

pub record JournalConfig : Type 0 where
  pub path : String
  pub retention_detail_days : ℕ
  pub retention_summary_days : ℕ
  pub max_size_mb : ℕ

pub record WatchtowerConfig (F : Type 0) : Type 0 where
  pub hostname : String
  pub poll_interval : ℕ
  pub log_level : String
  pub resources : ResourceConfig F
  pub anomaly : AnomalyConfig F
  pub syslog : SyslogConfig
  pub banner : BannerConfig
  pub peer : PeerConfig
  pub hierarchy : HierarchyConfig
  pub llm : LlmConfig
  pub journal : JournalConfig

abbrev pub default_tls : TlsConfig
default_tls = record {
  cert = "/etc/sonic/credentials/watchtower.crt";
  key = "/etc/sonic/credentials/watchtower.key";
  ca = "/etc/sonic/credentials/ca.crt";
}

abbrev pub default_syslog : SyslogConfig
default_syslog = record {
  enabled = true;
  facility = "LOG_LOCAL4";
  min_severity = "warning";
  include_peer_findings = false;
}

abbrev pub default_banner : BannerConfig
default_banner = record {
  enabled = true;
  max_lines = 20;
  findings_file = "/var/run/watchtower/banner.txt";
  show_all_clear = true;
}

abbrev pub default_peer : PeerConfig
default_peer = record {
  enabled = true;
  port = 5950;
  tls = default_tls;
  verify_hostname = true;
  heartbeat_interval = 10;
  topology_share_interval = 60;
  finding_ttl = 3;
}

module _ {F : Type 0} (fl : Float F) where
  open fl use {of_ℕ}

  abbrev pub default_resources : ResourceConfig F
  default_resources = record {
    max_cpu_percent = of_ℕ 20;
    max_memory_mb = of_ℕ 768;
    max_disk_mb = 200;
    throttle_cpu_percent = of_ℕ 15;
    throttle_memory_mb = of_ℕ 600;
    system_cpu_ceiling = of_ℕ 80;
    system_memory_ceiling = of_ℕ 85;
  }

  abbrev pub default_anomaly : AnomalyConfig F
  default_anomaly = record {
    deviation_threshold = of_ℕ 5;
    immediate_threshold = of_ℕ 10;
    baseline_warmup_hours = 168;
  }

  -- `__post_init__`: an unset or "auto" host name is the system's.
  abbrev pub post_init : String → WatchtowerConfig F → WatchtowerConfig F
  post_init system_name c =
      if c.hostname == "" || c.hostname == "auto" then record c { hostname = system_name } else c

  -- The defaults of the fields.
  abbrev pub default_fields : WatchtowerConfig F
  default_fields = record {
    hostname = "";
    poll_interval = 30;
    log_level = "info";
    resources = default_resources;
    anomaly = default_anomaly;
    syslog = default_syslog;
    banner = default_banner;
    peer = default_peer;
    hierarchy = record { role = "auto"; priority = 100 };
    llm = record {
      enabled = false;
      backend = "llama_cpp";
      model_path = "/opt/watchtower/models/qwen2-0.5b-q4_k_m.gguf";
      max_tool_calls = 10;
      max_output_tokens = 2000;
      max_concurrent_investigations = 5;
      context_size = 4096;
    };
    journal = record {
      path = "/var/lib/watchtower/journal.db";
      retention_detail_days = 7;
      retention_summary_days = 30;
      max_size_mb = 100;
    };
  }

  -- `WatchtowerConfig()`, on a system of that name: the dataclass calls `__post_init__` at the end.
  abbrev pub default_config : String → WatchtowerConfig F
  default_config system_name = post_init system_name default_fields
