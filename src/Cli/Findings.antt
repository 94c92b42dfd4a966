-- ===== src/Cli/Findings.antt =====
-- The commands `show findings` and `show events` of cli/main.py.
use sonic_watchtower.Prelude.{
  ℕ, String, ◌<>◌, Bool, true, false, Option, none, some, List, [], ◌∷◌, ◌++◌, ◌==◌, length,
  if◌then◌else◌,
}
use sonic_watchtower.Prelude.Dict.{Dict, get_or}
use sonic_watchtower.Prelude.Dict
use sonic_watchtower.Prelude.Text.{upper, decimal, pad_right}
use sonic_watchtower.Store.{Store, Finding, Event}
use sonic_watchtower.Store.Findings.{get_active, get_history, count_active}
use sonic_watchtower.Store.Events.{get_recent, count_recent}
use sonic_watchtower.Cli.{Shown, severity_counts, time_or, echo_each}

abbrev pub margin : String
margin = "             "

-- `[{severity.upper():8s}]`
unfoldable pub tag : String → String
unfolding upper
tag severity = "  [" <> pad_right 8 (upper severity) <> "] "

-- `if f.get("detail")`
abbrev pub detail_line : Option String → List String
detail_line none = []
detail_line (some detail) = if detail == "" then [] else (margin <> detail) ∷ []

unfoldable pub active_row : (ℕ → String) → Finding → List String
unfolding tag
active_row time_text f =
    (tag f.severity <> f.summary)
    ∷ (margin <> "ID: " <> f.finding_id <> "  Time: " <> time_text f.timestamp)
    ∷ (detail_line f.detail ++ "" ∷ [])

unfoldable pub resolved_row : (ℕ → String) → Finding → List String
unfolding tag
resolved_row time_text f =
    (tag f.severity <> f.summary)
    ∷ (margin <> "Resolved: " <> time_or time_text "None" f.resolved_at)
    ∷ []

unfoldable pub active_header : Dict ℕ → String
unfolding severity_counts decimal Dict.lookup
active_header counts =
    "Active findings: "
    <> decimal (get_or "total" 0 counts)
    <> " "
    <> severity_counts counts
    <> "\n"

-- ` port=…`, if the event has one.
abbrev pub port_text : Option String → String
port_text none = ""
port_text (some port) = if port == "" then "" else " port=" <> port

module _ {F : Type 0} (time_text : ℕ → String) where
  -- The branch of `findings` without `--history`; the return for an empty list leaves the journal open.
  unfoldable pub show_active : Option String → Store F → Shown
  unfolding get_active count_active active_header active_row echo_each
  show_active severity s = elim (get_active severity s) [
    | [] ↦ record { echoed = "No active findings." ∷ []; closed = false }
    | f ∷ fs ↦ record {
      echoed = active_header (count_active s) ∷ echo_each (active_row time_text) (f ∷ fs);
      closed = true;
    }
  ]

  -- The branch with `--history`.
  unfoldable pub show_history : (now days : ℕ) → Store F → Shown
  unfolding get_history resolved_row echo_each decimal
  show_history now days s = elim (get_history now days s) [
    | [] ↦ record { echoed = "No resolved findings in the last 7 days." ∷ []; closed = false }
    | f ∷ fs ↦ record {
      echoed =
          ("Resolved findings (" <> decimal (length (f ∷ fs)) <> "):\n")
          ∷ echo_each (resolved_row time_text) (f ∷ fs);
      closed = true;
    }
  ]

  -- `findings`
  unfoldable pub findings : (now days : ℕ) → Bool → Option String → Store F → Shown
  unfolding show_active show_history
  findings now days history severity s =
      if history then show_history now days s else show_active severity s

  unfoldable pub event_row : Event F → List String
  unfolding tag
  event_row e =
      (tag e.severity
        <> time_text e.timestamp
        <> " "
        <> e.category
        <> port_text e.port
        <> " ("
        <> e.source
        <> ")")
      ∷ []

  -- `events`
  unfoldable pub events : (now seconds : ℕ) → Option String → Store F → Shown
  unfolding get_recent count_recent event_row echo_each severity_counts decimal Dict.lookup
  events now seconds severity s = elim (get_recent now seconds severity s) [
    | [] ↦ record { echoed = "No recent events." ∷ []; closed = true }
    | e ∷ es ↦
        let counts = count_recent now seconds s in
        record {
          echoed =
              ("Events in last "
                <> decimal seconds
                <> "s: "
                <> decimal (get_or "total" 0 counts)
                <> " "
                <> severity_counts counts
                <> "\n")
              ∷ echo_each event_row (e ∷ es);
          closed = true;
        }
  ]
