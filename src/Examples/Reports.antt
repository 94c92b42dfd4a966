-- ===== src/Examples/Reports.antt =====
-- The banner at concrete inputs.
use sonic_watchtower.Prelude.{
  ℕ, ◌-◌, ◌≤◌, String, ◌≡◌, refl, arith, true, List, [], ◌∷◌, ◌++◌, ◌==◌, none, length, take,
  concat, count,
}
use sonic_watchtower.Prelude.Dict.{get_or}
use sonic_watchtower.Prelude.Text.{words, upper}
use sonic_watchtower.Store.Counts.{sum_values}
use sonic_watchtower.Cli.Findings.{show_active}
use sonic_watchtower.Examples.{busy}
use sonic_watchtower.Config.{default_banner, BannerConfig}
use sonic_watchtower.Store.{Finding}
use sonic_watchtower.Output.Banner.{
  layout, block, wrap_finding, banner_lines, overflow, header, double_rule, count_severities,
  no_counts,
}
use sonic_watchtower.Output.Banner.Wrapping.{IsFilling, lay, wrap_finding_lem}
use sonic_watchtower.Output.Banner.Fitting.{IsFit, blocks, banner_lines_lem, length-banner_lines}

abbrev long : String
long =
    "Ethernet48 rx_crc_errors far above its usual level for this hour of the week, check the optic first"

abbrev finding : Finding
finding = record {
  finding_id = "f-20260101-0001";
  timestamp = 1000000;
  severity = "critical";
  summary = long;
  detail = none;
  related_events = none;
  active = true;
  resolved_at = none;
  created_at = 1000000;
}

abbrev small : BannerConfig
small = record default_banner { max_lines = 11 }

wrapped :
    wrap_finding "CRITICAL" long 52 3
    ≡ " [CRITICAL] Ethernet48 rx_crc_errors far above its"
      ∷ "   usual level for this hour of the week, check the" ∷ "   optic first" ∷ []
unfolding wrap_finding words
wrapped = refl

length_of_three : length (banner_lines small "2026" (finding ∷ finding ∷ [])) ≡ 11
unfolding banner_lines block overflow wrap_finding words sum_values upper
length_of_three = refl

wrap_finding_lem_example :
    let l = layout "CRITICAL" 52 3 in
    (gs : List (List String)) × (concat gs ≡ words long)
    × IsFilling l [] gs
    × (wrap_finding "CRITICAL" long 52 3 ≡ lay l [] (take 3 gs))
wrap_finding_lem_example = wrap_finding_lem "CRITICAL" long 52 3 (omega arith)

banner_lines_lem_example :
    let fs = finding ∷ finding ∷ [] in
    let counts = count_severities fs no_counts in
    (k : ℕ) × IsFit (small.max_lines - 7) fs k
    × (banner_lines small "2026-01-01 10:00:00 UTC" fs
        ≡ header "2026-01-01 10:00:00 UTC" (length fs) counts
          ++ (blocks (take k fs) ++ overflow (length fs - k))
          ++ double_rule ∷ [])
    × ((s : String) → get_or s 0 counts ≡ count (λ f. f.severity == s) fs)
banner_lines_lem_example = banner_lines_lem small "2026-01-01 10:00:00 UTC" (finding ∷ finding ∷ [])

length-banner_lines_example :
    length (banner_lines small "2026-01-01 10:00:00 UTC" (finding ∷ finding ∷ [])) ≤ 11
length-banner_lines_example =
    length-banner_lines small "2026-01-01 10:00:00 UTC" (finding ∷ finding ∷ []) (omega arith)

listed :
    (show_active (λ t. "10:00") none busy).echoed
    ≡ "Active findings: 1 (0 critical, 1 warning, 0 info)\n" ∷ "  [WARNING ] Ethernet0 down"
      ∷ "             ID: f-1  Time: 10:00" ∷ "" ∷ []
unfolding show_active sonic_watchtower.Prelude.sort_by sonic_watchtower.Prelude.select
    sonic_watchtower.Prelude.insert_by sonic_watchtower.Store.Counts.with_counts
    sonic_watchtower.Prelude.Text.spaces sonic_watchtower.Store.Counts.tally
listed = refl
