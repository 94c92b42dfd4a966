-- ===== src/Config/Merge.antt =====
-- config.py: `_merge_dataclass` and `load_config`, on untyped values as Python has them. A text is a
-- key of a mapping and a name of an attribute; the attributes that every object has besides its
-- fields (`__class__` and such) are left out, and so are keys that are no texts. YAML is not the
-- program's: what `yaml.safe_load` gives is an argument.
pub mod Paths
pub mod Overriding
use sonic_watchtower.Prelude.{ℕ, String, Bool, Option, none, some, ◌==◌, if◌then◌else◌}
use sonic_watchtower.Prelude.Exec.{Result, ok, raise}
use sonic_watchtower.Prelude.Float.{Float}
use sonic_watchtower.Config.{
  WatchtowerConfig, ResourceConfig, AnomalyConfig, SyslogConfig, BannerConfig, PeerConfig,
  TlsConfig, HierarchyConfig, LlmConfig, JournalConfig, default_config,
}

-- A value of the file or of a setting: a mapping of the file is a `mapping`, an instance of a
-- dataclass with its attributes a `section`.
mutual
  pub data Object (F : Type 0) : Type 0 where
    null : Object F
    flag : Bool → Object F
    int : ℕ → Object F
    float : F → Object F
    text : String → Object F
    sequence : Items F → Object F
    mapping : Fields F → Object F
    section : Fields F → Object F

  pub data Items (F : Type 0) : Type 0 where
    nil : Items F
    cons : Object F → Items F → Items F

  pub data Fields (F : Type 0) : Type 0 where
    end : Fields F
    field : String → Object F → Fields F → Fields F

module _ {F : Type 0} where
  -- `getattr`, and `hasattr` where there is none.
  unfoldable pub get : String → Fields F → Option (Object F)
  get k end = none
  get k (field j v fs) = if j == k then some v else get k fs

  -- `setattr` on an attribute that is there.
  unfoldable pub set : String → Object F → Fields F → Fields F
  set k v end = end
  set k v (field j w fs) = if j == k then field j v fs else field j w (set k v fs)

unfoldable mutual
  unfolding get set

  -- `_merge_dataclass`, on the attributes of an instance.
  pub merge : {F : Type 0} → Fields F → Fields F → Fields F
  merge dc end = dc
  merge dc (field key value overrides) =
      merge (elim (get key dc) [ none ↦ dc | some current ↦ set key (assign current value) dc ])
        overrides

  -- What an attribute is after an override: a mapping over a section is merged into it.
  pub assign : {F : Type 0} → Object F → Object F → Object F
  assign (section attributes) (mapping overrides) = section (merge attributes overrides)
  assign current value = value

module _ {F : Type 0} where
  -- The attributes of an instance, in the order of its dataclass.
  abbrev pub resource_fields : ResourceConfig F → Fields F
  resource_fields c = field "max_cpu_percent" (float c.max_cpu_percent) (
      field "max_memory_mb" (float c.max_memory_mb) (
        field "max_disk_mb" (int c.max_disk_mb) (
          field "throttle_cpu_percent" (float c.throttle_cpu_percent) (
            field "throttle_memory_mb" (float c.throttle_memory_mb) (
              field "system_cpu_ceiling" (float c.system_cpu_ceiling)
                (field "system_memory_ceiling" (float c.system_memory_ceiling) end))))))

  abbrev pub anomaly_fields : AnomalyConfig F → Fields F
  anomaly_fields c = field "deviation_threshold" (float c.deviation_threshold) (
      field "immediate_threshold" (float c.immediate_threshold)
        (field "baseline_warmup_hours" (int c.baseline_warmup_hours) end))

  abbrev pub syslog_fields : SyslogConfig → Fields F
  syslog_fields c = field "enabled" (flag c.enabled) (
      field "facility" (text c.facility) (
        field "min_severity" (text c.min_severity)
          (field "include_peer_findings" (flag c.include_peer_findings) end)))

  abbrev pub banner_fields : BannerConfig → Fields F
  banner_fields c = field "enabled" (flag c.enabled) (
      field "max_lines" (int c.max_lines) (
        field "findings_file" (text c.findings_file)
          (field "show_all_clear" (flag c.show_all_clear) end)))

  abbrev pub tls_fields : TlsConfig → Fields F
  tls_fields c = field "cert" (text c.cert) (field "key" (text c.key) (field "ca" (text c.ca) end))

  abbrev pub peer_fields : PeerConfig → Fields F
  peer_fields c = field "enabled" (flag c.enabled) (
      field "port" (int c.port) (
        field "tls" (section (tls_fields c.tls)) (
          field "verify_hostname" (flag c.verify_hostname) (
            field "heartbeat_interval" (int c.heartbeat_interval) (
              field "topology_share_interval" (int c.topology_share_interval)
                (field "finding_ttl" (int c.finding_ttl) end))))))

  abbrev pub hierarchy_fields : HierarchyConfig → Fields F
  hierarchy_fields c = field "role" (text c.role) (field "priority" (int c.priority) end)

  abbrev pub llm_fields : LlmConfig → Fields F
  llm_fields c = field "enabled" (flag c.enabled) (
      field "backend" (text c.backend) (
        field "model_path" (text c.model_path) (
          field "max_tool_calls" (int c.max_tool_calls) (
            field "max_output_tokens" (int c.max_output_tokens) (
              field "max_concurrent_investigations" (int c.max_concurrent_investigations)
                (field "context_size" (int c.context_size) end))))))

  abbrev pub journal_fields : JournalConfig → Fields F
  journal_fields c = field "path" (text c.path) (
      field "retention_detail_days" (int c.retention_detail_days) (
        field "retention_summary_days" (int c.retention_summary_days)
          (field "max_size_mb" (int c.max_size_mb) end)))

  abbrev pub fields_of : WatchtowerConfig F → Fields F
  fields_of c = field "hostname" (text c.hostname) (
      field "poll_interval" (int c.poll_interval) (
        field "log_level" (text c.log_level) (
          field "resources" (section (resource_fields c.resources)) (
            field "anomaly" (section (anomaly_fields c.anomaly)) (
              field "syslog" (section (syslog_fields c.syslog)) (
                field "banner" (section (banner_fields c.banner)) (
                  field "peer" (section (peer_fields c.peer)) (
                    field "hierarchy" (section (hierarchy_fields c.hierarchy)) (
                      field "llm" (section (llm_fields c.llm))
                        (field "journal" (section (journal_fields c.journal)) end))))))))))

-- What stands at the path of the configuration: no file, or what YAML makes of it, which raises
-- where it is no YAML.
pub data ConfigFile (F : Type 0) : Type 0 where
  missing : ConfigFile F
  content : Result (Object F) → ConfigFile F

-- `load_config`, on a system of that name.
unfoldable pub load_config :
    {F : Type 0} → Float F → String → Option (ConfigFile F) → Result (Fields F)
unfolding merge
load_config fl system_name none = ok (fields_of (default_config fl system_name))
load_config fl system_name (some missing) = ok (fields_of (default_config fl system_name))
load_config fl system_name (some (content (raise e))) = raise e
load_config fl system_name (some (content (ok (mapping overrides)))) =
    ok (merge (fields_of (default_config fl system_name)) overrides)
load_config fl system_name (some (content (ok raw))) =
    ok (fields_of (default_config fl system_name))
