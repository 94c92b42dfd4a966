-- ===== src/Store/Findings.antt =====
-- store/findings.py: the lifecycle of findings.
pub mod Creating
pub mod Numbering
pub mod Lifecycle
use sonic_watchtower.Prelude.{
  ℕ, ◌+◌, ◌-◌, ◌*◌, String, ◌<>◌, Bool, true, false, not, ◌&&◌, ◌||◌, Option, none, some, List, [],
  ◌∷◌, ◌++◌, map, ◌==◌, ltb, leb, eqb, if◌then◌else◌, select, sort_by, any,
}
use sonic_watchtower.Prelude.Clock.{Moment}
use sonic_watchtower.Prelude.Text.{decimal4}
use sonic_watchtower.Prelude.Dict.{Dict}
use sonic_watchtower.Prelude.Exec.{Exec, Result, ok, raise, integrity_error}
use sonic_watchtower.Store.{Store, Finding, is_event_severity, resolved_before}
use sonic_watchtower.Store.Counts.{tally, with_counts}

-- `_generate_finding_id`, at the counter's value.
unfoldable pub generated_id : Moment → ℕ → String
unfolding decimal4
generated_id now seq = "f-" <> now.date <> "-" <> decimal4 seq

-- `json.dumps(related_events) if related_events else None`
abbrev stored_ids : Option (List ℕ) → Option (List ℕ)
stored_ids none = none
stored_ids (some []) = none
stored_ids (some (i ∷ is)) = some (i ∷ is)

-- The row that `create` inserts.
abbrev pub new_finding : ℕ → String → String → Option String → Option (List ℕ) → String → Finding
new_finding now severity summary detail related fid = record {
  finding_id = fid;
  timestamp = now;
  severity = severity;
  summary = summary;
  detail = detail;
  related_events = stored_ids related;
  active = true;
  resolved_at = none;
  created_at = now;
}

-- The UPDATE of `resolve`, on one row.
abbrev pub resolve_row : ℕ → String → Finding → Finding
resolve_row now fid f =
    if f.finding_id == fid then record f { active = false; resolved_at = some now } else f

find_id : String → List Finding → Option Finding
find_id fid [] = none
find_id fid (f ∷ fs) = if f.finding_id == fid then some f else find_id fid fs

-- `CASE severity WHEN 'critical' THEN 0 … END`, one up: a NULL sorts first.
abbrev pub severity_rank : String → ℕ
severity_rank s =
    if s == "critical" then 1 else if s == "warning" then 2 else if s == "info" then 3 else 0

abbrev pub newest_first : Finding → Finding → Bool
newest_first a b = leb b.timestamp a.timestamp

abbrev pub worst_first : Finding → Finding → Bool
worst_first a b =
    let x = severity_rank a.severity in
    let y = severity_rank b.severity in ltb x y || (eqb x y && newest_first a b)

abbrev pub resolved_later : Finding → Finding → Bool
resolved_later a b = elim b.resolved_at [ none ↦ true | some t ↦ not (resolved_before t a) ]

module _ {F : Type 0} where
  abbrev pub has_id : String → Store F → Bool
  has_id fid s = any (λ f. f.finding_id == fid) s.findings

  -- The INSERT: `finding_id` is UNIQUE and the severity has a CHECK.
  unfoldable pub insert_finding : Finding → Exec (Store F) String
  insert_finding f s =
      if is_event_severity f.severity && not (has_id f.finding_id s)
      then (ok f.finding_id, record s { findings = s.findings ++ f ∷ [] })
      else (raise integrity_error, s)

  -- `FindingsStore.create`. A generated id takes a number of the counter, also if the INSERT fails.
  unfoldable pub create :
      Moment
      → String
      → String
      → Option String
      → Option (List ℕ)
      → Option String
      → Exec (Store F) String
  unfolding insert_finding generated_id
  create now severity summary detail related (some fid) s =
      insert_finding (new_finding now.seconds severity summary detail related fid) s
  create now severity summary detail related none s =
      insert_finding
        (new_finding now.seconds severity summary detail related (generated_id now s.next_finding))
        (record s { next_finding = s.next_finding + 1 })

  unfoldable pub resolve : ℕ → String → Store F → Store F
  resolve now fid s = record s { findings = map (resolve_row now fid) s.findings }

  -- `FindingsStore.get`
  unfoldable pub get : String → Store F → Option Finding
  unfolding find_id
  get fid s = find_id fid s.findings

  -- All active findings, the worst first: what the daemon's banner and the CLI show.
  abbrev pub active_sorted : Store F → List Finding
  active_sorted s = sort_by worst_first (select (λ f. f.active) s.findings)

  unfoldable pub get_active : Option String → Store F → List Finding
  get_active none s = active_sorted s
  get_active (some severity) s =
      if severity == ""
      then active_sorted s
      else sort_by newest_first (select (λ f. f.active && f.severity == severity) s.findings)

  unfoldable pub get_history : ℕ → ℕ → Store F → List Finding
  get_history now days s =
      let cutoff = now - days * 86400 in
      sort_by resolved_later (
        select (λ f. not f.active && elim f.resolved_at [ none ↦ false | some t ↦ leb cutoff t ])
          s.findings)

  unfoldable pub count_active : Store F → Dict ℕ
  count_active s =
      with_counts (("critical", 0) ∷ ("warning", 0) ∷ ("info", 0) ∷ [])
        (tally (map (λ f. f.severity) (select (λ f. f.active) s.findings)))
