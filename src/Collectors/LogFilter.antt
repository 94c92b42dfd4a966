-- ===== src/Collectors/LogFilter.antt =====
-- collectors/log_filter.py, on lines of ASCII text. The log file stands as its lines: `none` is a
-- path that does not exist, `some none` a file that cannot be read.
use Prim.Native.String.{len, slice}
use text.Mathlib.Text.{starts_with}
use sonic_watchtower.Prelude.{
  ℕ, ◌-◌, String, Bool, true, false, ◌&&◌, ◌||◌, Option, none, some, List, [], ◌∷◌, ◌==◌, eqb, ◌≡◌,
  refl, All, inl, inr, Bool-cases, if◌then◌else◌, length, drop, any,
}
use sonic_watchtower.Prelude.Text.{strip, strip_left, strip_right, upper}

-- Some place of a text where `part` stands, with a rest behind it that passes the test.
unfoldable pub at_some : String → (String → Bool) → String → Bool
at_some part rest String.[] = part == "" && rest ""
at_some part rest (String.◌∷◌ c s) =
    let line = String.◌∷◌ c s in
    starts_with line part && rest (slice line (len part) (len line)) || at_some part rest s

-- `re.search` of literal parts with `.*` between them, on one line.
unfoldable pub search : List String → String → Bool
unfolding at_some
search [] s = true
search (part ∷ parts) s = at_some part (search parts) s

-- `_NOISE_PATTERNS`; an alternative in a pattern is a pattern of its own.
abbrev pub noise_patterns : List (List String)
noise_patterns =
    ("systemd[1]: Started Session" ∷ [])
    ∷ ("CRON[" ∷ [])
    ∷ ("pam_unix" ∷ "session opened" ∷ [])
    ∷ ("pam_unix" ∷ "session closed" ∷ [])
    ∷ ("rsyslogd" ∷ "action" ∷ "resumed" ∷ [])
    ∷ ("supervisord" ∷ "INFO" ∷ [])
    ∷ []

-- `_INTERESTING_PATTERNS`, in capitals.
abbrev pub interesting_patterns : List String
interesting_patterns =
    "BGP" ∷ "ORCHAGENT" ∷ "SYNCD" ∷ "SWSS" ∷ "ERR" ∷ "CRIT" ∷ "WARN" ∷ "EMERG" ∷ "ALERT" ∷ "LINK UP"
    ∷ "LINK DOWN" ∷ "NEIGHBOR" ∷ []

-- `_is_noise`
unfoldable pub is_noise : String → Bool
unfolding search any
is_noise line = any (λ parts. search parts line) noise_patterns

-- `_is_interesting`; `re.IGNORECASE` compares letters without their case.
unfoldable pub is_interesting : String → Bool
unfolding search any upper
is_interesting line =
    let capitals = upper line in any (λ part. search (part ∷ []) capitals) interesting_patterns

-- `_tail`: `all_lines[-n:]`, which for 0 is `all_lines[0:]`.
abbrev pub tail : ℕ → List String → List String
tail n lines = if eqb n 0 then lines else drop (length lines - n) lines

pub record LogEntry : Type 0 where
  pub line : String
  pub interesting : Bool

-- The loop of `collect`.
unfoldable pub filter_lines : List String → List LogEntry
unfolding is_noise is_interesting strip_left strip_right
filter_lines [] = []
filter_lines (raw ∷ lines) =
    let line = strip raw in
    let rest = filter_lines lines in
    if line == ""
    then rest
    else if is_noise line
    then rest
    else record { line = line; interesting = is_interesting line } ∷ rest

-- `LogFilterCollector.collect`
unfoldable pub collect : ℕ → Option (Option (List String)) → List LogEntry
unfolding filter_lines
collect tail_lines none = []
collect tail_lines (some none) = []
collect tail_lines (some (some lines)) = filter_lines (tail tail_lines lines)

noise_dropped :
    collect 2 (
      some (
        some (
          "kernel: start" ∷ "CRON[12]: job" ∷ "rsyslogd: action 'x' resumed"
          ∷ "  bgpd: Neighbor 10.0.0.1 Down\n" ∷ [])))
    ≡ record { line = "bgpd: Neighbor 10.0.0.1 Down"; interesting = true } ∷ []
unfolding collect
noise_dropped = refl

-- Every line that is kept has text and is no noise.
pub filter_lines-All :
    (lines : List String)
    → All
        (λ (e : LogEntry).
          ((e.line == "") ≡ false)
          × (is_noise e.line ≡ false)
          × (e.interesting ≡ is_interesting e.line))
        (filter_lines lines)
unfolding filter_lines
filter_lines-All [] = tt
filter_lines-All (raw ∷ lines) = elim (Bool-cases (strip raw == "")) [
  | inl blank ↦ rw blank (filter_lines-All lines)
  | inr text ↦ elim (Bool-cases (is_noise (strip raw))) [
    | inl noise ↦ rw (text, noise) (filter_lines-All lines)
    | inr kept ↦ rw (text, kept) ((text, kept, refl), filter_lines-All lines)
  ]
]
