-- ===== src/Output/Syslog.antt =====
-- output/syslog_emitter.py. The messages are kept in a list, as in its dry-run mode; priorities
-- are the numbers of syslog(3).
pub mod Lines
use sonic_watchtower.Prelude.{
  ℕ, String, ◌<>◌, Bool, not, ◌&&◌, Option, none, some, List, [], ◌∷◌, ◌++◌, ltb, if◌then◌else◌,
}
use sonic_watchtower.Prelude.Text.{upper}
use sonic_watchtower.Prelude.Dict
use sonic_watchtower.Prelude.Dict.{Dict, get_or}
use sonic_watchtower.Config.{SyslogConfig}

-- `_SEVERITY_MAP`: LOG_CRIT, LOG_WARNING, LOG_INFO, LOG_DEBUG.
abbrev pub severity_map : Dict ℕ
severity_map = ("critical", 2) ∷ ("warning", 4) ∷ ("info", 6) ∷ ("debug", 7) ∷ []

-- `_SEVERITY_ORDER`
abbrev pub severity_order : Dict ℕ
severity_order = ("debug", 0) ∷ ("info", 1) ∷ ("warning", 2) ∷ ("critical", 3) ∷ []

-- `_FACILITY_MAP`: the codes of LOG_LOCAL0 to LOG_LOCAL7 and LOG_USER.
abbrev facility_map : Dict ℕ
facility_map =
    ("LOG_LOCAL0", 128)
    ∷ ("LOG_LOCAL1", 136)
    ∷ ("LOG_LOCAL2", 144)
    ∷ ("LOG_LOCAL3", 152)
    ∷ ("LOG_LOCAL4", 160)
    ∷ ("LOG_LOCAL5", 168)
    ∷ ("LOG_LOCAL6", 176)
    ∷ ("LOG_LOCAL7", 184)
    ∷ ("LOG_USER", 8)
    ∷ []

pub record Message : Type 0 where
  pub priority : ℕ
  pub severity : String
  pub message : String
  pub finding_id : Option String

pub record Emitter : Type 0 where
  pub config : SyslogConfig
  pub facility : ℕ
  pub emitted : List Message

-- `SyslogEmitter.__init__`, with the facility that it opens.
unfoldable pub init : SyslogConfig → Emitter
unfolding Dict.lookup
init config = record {
  config = config;
  facility = get_or config.facility 160 facility_map;
  emitted = [];
}

abbrev pub level : ℕ → String → ℕ
level default s = get_or s default severity_order

abbrev pub finding_message : String → String → String → Message
finding_message finding_id severity summary = record {
  priority = get_or severity 6 severity_map;
  severity = severity;
  message = "[" <> upper severity <> "] " <> summary <> " finding_id=" <> finding_id;
  finding_id = some finding_id;
}

-- `SyslogEmitter.emit_finding`
unfoldable pub emit_finding : String → String → String → Bool → Emitter → Emitter
unfolding Dict.lookup
emit_finding finding_id severity summary is_peer e =
    if not e.config.enabled
    then e
    else if is_peer && not e.config.include_peer_findings
    then e
    else if ltb (level 1 severity) (level 2 e.config.min_severity)
    then e
    else record e { emitted = e.emitted ++ finding_message finding_id severity summary ∷ [] }

-- `SyslogEmitter.emit_status`
unfoldable pub emit_status : String → Emitter → Emitter
emit_status message e = if not e.config.enabled then e else record e {
  emitted =
      e.emitted
      ++ record { priority = 7; severity = "debug"; message = message; finding_id = none } ∷ [];
}
