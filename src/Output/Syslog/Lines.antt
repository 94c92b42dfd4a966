-- ===== src/Output/Syslog/Lines.antt =====
-- Which findings output/syslog_emitter.py writes, and with which priority.
use sonic_watchtower.Prelude.{
  ℕ, String, ◌<>◌, ◌≡◌, refl, ◌∙◌, ◌⊎◌, inl, inr, Bool, true, false, not, ◌&&◌, some, [], ◌∷◌, ◌++◌,
  arith, ◌==◌, eq_iff, ltb, if◌then◌else◌, Bool-cases,
}
use sonic_watchtower.Prelude.Dict.{lookup, get_or}
use sonic_watchtower.Prelude.Text.{upper}
use sonic_watchtower.Store.{is_event_severity}
use sonic_watchtower.Store.Findings.Lifecycle.{is_worse}
use sonic_watchtower.Report.{FindingData}
use sonic_watchtower.Output.Syslog.{Message, Emitter, emit_finding, level, severity_map}

-- The three severities of the schema.
severities :
    (s : String) → is_event_severity s ≡ true → (s ≡ "info") ⊎ ((s ≡ "warning") ⊎ (s ≡ "critical"))
severities s h = elim (Bool-cases (s == "info")) [
  | inl info ↦ inl ((eq_iff s "info").0 info)
  | inr other ↦ elim (Bool-cases (s == "warning")) [
    | inl warning ↦ inr (inl ((eq_iff s "warning").0 warning))
    | inr others ↦ inr (inr ((eq_iff s "critical").0 (ground (arith, h, other, others))))
  ]
]

-- What holds of each of the three holds of them all.
by_severity :
    (P : String → Type 0)
    → P "info"
    → P "warning"
    → P "critical"
    → (s : String) → is_event_severity s ≡ true
    → P s
by_severity P i w c s h = elim (severities s h) [
  | inl e ↦ rw e i
  | inr (inl e) ↦ rw e w
  | inr (inr e) ↦ rw e c
]

-- The level that is refused is the one over the severity.
below_worse :
    (severity least : String)
    → is_event_severity severity ≡ true
    → is_event_severity least ≡ true
    → ltb (level 1 severity) (level 2 least) ≡ is_worse least severity
unfolding lookup
below_worse severity least valid known =
    by_severity (λ s. ltb (level 1 s) (level 2 least) ≡ is_worse least s)
      (by_severity (λ l. ltb (level 1 "info") (level 2 l) ≡ is_worse l "info") refl refl refl least
        known)
      (by_severity (λ l. ltb (level 1 "warning") (level 2 l) ≡ is_worse l "warning") refl refl refl
        least known)
      (by_severity (λ l. ltb (level 1 "critical") (level 2 l) ≡ is_worse l "critical") refl refl
        refl least known)
      severity valid

abbrev pub priority_of : String → ℕ
priority_of s = if s == "critical" then 2 else if s == "warning" then 4 else 6

priority_of_lem :
    (severity : String)
    → is_event_severity severity ≡ true
    → get_or severity 6 severity_map ≡ priority_of severity
unfolding lookup
priority_of_lem severity valid =
    by_severity (λ s. get_or s 6 severity_map ≡ priority_of s) refl refl refl severity valid

-- The line of a finding in syslog.
abbrev pub line : String → FindingData → Message
line fid fd = record {
  priority = priority_of fd.severity;
  severity = fd.severity;
  message = "[" <> upper fd.severity <> "] " <> fd.summary <> " finding_id=" <> fid;
  finding_id = some fid;
}

-- Syslog is on, and the severity not under the least one that it is to have.
abbrev pub is_logged : FindingData → Emitter → Bool
is_logged fd e = e.config.enabled && not (is_worse e.config.min_severity fd.severity)

pub emitted-emit :
    (fid : String) (fd : FindingData) (e : Emitter)
    → is_event_severity fd.severity ≡ true
    → is_event_severity e.config.min_severity ≡ true
    → (emit_finding fid fd.severity fd.summary false e).emitted
      ≡ (if is_logged fd e then e.emitted ++ line fid fd ∷ [] else e.emitted)
unfolding emit_finding
emitted-emit fid fd e valid known =
    let below = below_worse fd.severity e.config.min_severity valid known in
    elim (Bool-cases e.config.enabled) [
      | inr off ↦ rw off refl
      | inl on ↦ elim (Bool-cases (is_worse e.config.min_severity fd.severity)) [
        | inl worse ↦ rw (on, below ∙ worse, worse) refl
        | inr not_worse ↦
            rw (on, below ∙ not_worse, not_worse, priority_of_lem fd.severity valid) refl
      ]
    ]
