-- ===== src/Output/Banner.antt =====
-- output/banner.py: the text of the login banner. A length of Python's counts characters, as `count`
-- does; a width or a number of lines that would be negative there is 0 here, which fails and passes
-- the same tests.
pub mod Wrapping
pub mod Fitting
use Prim.Native.String.{count as chars}
use sonic_watchtower.Prelude.{
  ℕ, suc, ◌+◌, ◌-◌, String, ◌<>◌, Bool, not, Option, some, List, [], ◌∷◌, ◌++◌, ltb, leb, eqb, ◌==◌,
  length, if◌then◌else◌,
}
use sonic_watchtower.Prelude.Clock.{Moment}
use sonic_watchtower.Prelude.Dict.{Dict, get_or}
use sonic_watchtower.Prelude.Dict
use sonic_watchtower.Prelude.Exec.{Exec, ok, raise, os_error}
use sonic_watchtower.Prelude.Text.{upper, words, join, decimal}
use sonic_watchtower.Config.{BannerConfig}
use sonic_watchtower.Store.{Finding}
use sonic_watchtower.Store.Counts.{bump, sum_values}

-- What `_wrap_finding` sets up: the prefix of the first line, the width and the bound on the lines.
pub record Layout : Type 0 where
  pub prefix : String
  pub width : ℕ
  pub max_lines : ℕ

abbrev pub layout : String → ℕ → ℕ → Layout
layout severity width max_lines = record {
  prefix = " [" <> severity <> "] ";
  width = width;
  max_lines = max_lines;
}

abbrev pub indent : String
indent = "   "

-- What stands before a line, which is the first as long as there is none.
abbrev pub margin : Layout → List String → String
margin l [] = l.prefix
margin l (_ ∷ _) = indent

-- `first_width if not lines else rest_width`
abbrev pub room : Layout → List String → ℕ
room l lines = l.width - chars (margin l lines)

-- `lines.append(prefix + current)`, or with the indent.
abbrev pub add_line : Layout → List String → String → List String
add_line l lines current = lines ++ (margin l lines <> current) ∷ []

-- The lines and `current` after the loop over the words.
unfoldable pub wrap_words : Layout → List String → List String → String → List String × String
wrap_words l [] lines current = (lines, current)
wrap_words l (word ∷ ws) lines current =
    let started = wrap_words l ws lines word in
    let joined = wrap_words l ws lines (current <> " " <> word) in
    let broken = wrap_words l ws (add_line l lines current) word in
    if current == ""
    then started
    else if leb (chars current + 1 + chars word) (room l lines)
    then joined
    else if leb l.max_lines (length (add_line l lines current))
    then (add_line l lines current, word)
    else broken

-- The line that is not full, if it holds anything and there is a line left for it.
abbrev pub last_line : Layout → List String × String → List String
last_line l (lines, current) =
    if current == ""
    then lines
    else if ltb (length lines) l.max_lines
    then add_line l lines current
    else lines

-- `_wrap_finding`
unfoldable pub wrap_finding : String → String → ℕ → ℕ → List String
unfolding wrap_words
wrap_finding severity summary width max_lines =
    let l = layout severity width max_lines in last_line l (wrap_words l (words summary) [] "")

-- The lines of one finding, a blank one first.
unfoldable pub block : Finding → List String
block f = "" ∷ wrap_finding (upper f.severity) f.summary 52 3

-- `'s' if n != 1 else ''`
abbrev pub plural : ℕ → String
plural n = if eqb n 1 then "" else "s"

-- The line that counts the findings left out.
unfoldable pub overflow : ℕ → List String
overflow remaining =
    if ltb 0 remaining
    then (" ... and " <> decimal remaining <> " more finding" <> plural remaining) ∷ []
    else []

-- The loop over the findings: `used` and `shown` are `used_lines` and `shown`.
unfoldable pub fit : (max total : ℕ) → List Finding → (used shown : ℕ) → List String
fit max total [] used shown = []
fit max total (f ∷ fs) used shown =
    let rest = fit max total fs (used + length (block f)) (suc shown) in
    if leb max used
    then overflow (total - shown)
    else if ltb max (used + length (block f))
    then overflow (total - shown)
    else block f ++ rest

-- `counts[sev] = counts.get(sev, 0) + 1` for each finding.
unfoldable pub count_severities : List Finding → Dict ℕ → Dict ℕ
unfolding bump
count_severities [] counts = counts
count_severities (f ∷ fs) counts = count_severities fs (bump f.severity counts)

abbrev pub no_counts : Dict ℕ
no_counts = ("critical", 0) ∷ ("warning", 0) ∷ ("info", 0) ∷ []

-- `severity_parts`, of the three severities in their order.
unfoldable pub severity_parts : List String → Dict ℕ → List String
unfolding Dict.lookup
severity_parts [] counts = []
severity_parts (s ∷ ss) counts =
    let rest = severity_parts ss counts in
    let n = get_or s 0 counts in if ltb 0 n then (decimal n <> " " <> upper s) ∷ rest else rest

abbrev pub double_rule : String
double_rule = "========================================================"

abbrev pub rule : String
rule = "--------------------------------------------------------"

abbrev pub header : String → ℕ → Dict ℕ → List String
header now total counts =
    double_rule
    ∷ (" WATCHTOWER: "
        <> decimal total
        <> " active finding"
        <> plural total
        <> "  ["
        <> join ", " (severity_parts ("critical" ∷ "warning" ∷ "info" ∷ []) counts)
        <> "]")
    ∷ (" Last updated: " <> now)
    ∷ " Details: watchtower show findings"
    ∷ rule
    ∷ []

-- The lines that `_format` joins, of at least one finding.
unfoldable pub banner_lines : BannerConfig → String → List Finding → List String
unfolding fit count_severities
banner_lines config now findings =
    let counts = count_severities findings no_counts in
    let total = sum_values counts in
    header now total counts ++ fit (config.max_lines - 7) total findings 0 0 ++ double_rule ∷ []

abbrev pub all_clear : String → String
all_clear now = "=== WATCHTOWER: No active findings. Last checked " <> now <> " ===\n"

-- `_format`, at a time.
unfoldable pub format : BannerConfig → Moment → List Finding → String
unfolding banner_lines
format config now [] = if config.show_all_clear then all_clear now.clock_text else ""
format config now (f ∷ fs) = join "\n" (banner_lines config now.clock_text (f ∷ fs)) <> "\n"

-- `write`: what the file holds afterwards, if the directory and the file can be written.
unfoldable pub write : BannerConfig → Bool → Moment → List Finding → Exec (Option String) (Unit {0})
unfolding format
write config writable now findings file =
    if not config.enabled
    then (ok tt, file)
    else if writable
    then (ok tt, some (format config now findings))
    else (raise os_error, file)
