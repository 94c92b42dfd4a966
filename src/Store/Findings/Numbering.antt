-- ===== src/Store/Findings/Numbering.antt =====
-- The generated ids of store/findings.py within one process: `create` is never refused for one.
use mathlib.Core.List.{append_assoc, append-nil}
use text.Mathlib.TextLemmas.{append_cancel_left}
use sonic_watchtower.Prelude.{
  ℕ, ◌+◌, ◌≤◌, String, ◌<>◌, ◌≡◌, refl, ap, sym, ◌∙◌, true, false, Option, none, List, [], ◌∷◌,
  ◌++◌, arith, ◌==◌, ==_false, All, length,
}
use sonic_watchtower.Prelude.Clock.{Moment}
use sonic_watchtower.Prelude.Exec.{Exec, Result, ok, pure, ◌>>=◌, for_each, for_each_step, continue}
use sonic_watchtower.Prelude.Text.{decimal4}
use sonic_watchtower.Prelude.Text.Digits.{decimal4_inj}
use sonic_watchtower.Store.{Store, Finding, is_event_severity}
use sonic_watchtower.Store.Findings.{generated_id, new_finding, has_id, insert_finding, create}
use sonic_watchtower.Store.Findings.Creating.{any-append_one, generated_same_day}

-- What is asked of `create` without an id of its own.
pub record Request : Type 0 where
  pub now : Moment
  pub severity : String
  pub summary : String
  pub detail : Option String
  pub related : Option (List ℕ)

-- `create` for each request, one after the other.
abbrev pub create_all : {F : Type 0} → List Request → Exec (Store F) (Unit {0})
create_all rs =
    for_each rs λ r. create r.now r.severity r.summary r.detail r.related none >>= λ fid. pure tt

abbrev pub row : ℕ → Request → Finding
row k r = new_finding r.now.seconds r.severity r.summary r.detail r.related (generated_id r.now k)

-- The rows of the requests, numbered from a value of the counter.
abbrev pub rows_from : ℕ → List Request → List Finding
rows_from k [] = []
rows_from k (r ∷ rs) = row k r ∷ rows_from (k + 1) rs

-- No row has an id of that date that the counter has still to give.
abbrev pub IsUnused : {F : Type 0} → String → Store F → Type 0
IsUnused date s =
    (now : Moment) (k : ℕ)
    → now.date ≡ date
    → s.next_finding ≤ k
    → has_id (generated_id now k) s ≡ false

-- A request of that date whose severity the schema knows.
abbrev pub IsProper : String → Request → Type 0
IsProper date r = (r.now.date ≡ date) × (is_event_severity r.severity ≡ true)

generated_id_inj : (now : Moment) (j k : ℕ) → generated_id now j ≡ generated_id now k → j ≡ k
unfolding generated_id
generated_id_inj now j k e = decimal4_inj j k (
    append_cancel_left "-" (decimal4 j) (decimal4 k) (
      append_cancel_left now.date ("-" <> decimal4 j) ("-" <> decimal4 k) (
        append_cancel_left "f-" (now.date <> "-" <> decimal4 j) (now.date <> "-" <> decimal4 k) e)))

module _ {F : Type 0} where
  abbrev after_one : Request → Store F → Store F
  after_one r s = record s {
    findings = s.findings ++ row s.next_finding r ∷ [];
    next_finding = s.next_finding + 1;
  }

  abbrev stored : Store F → List Finding → ℕ → (Result (Unit {0}) × Store F)
  stored s fs n = (ok tt, record s { findings = fs; next_finding = n })

  create_one :
      (date : String) (r : Request) (s : Store F)
      → IsProper date r
      → IsUnused date s
      → create r.now r.severity r.summary r.detail r.related none s
        ≡ (ok (generated_id r.now s.next_finding), after_one r s)
  unfolding create insert_finding
  create_one date r s (same, valid) unused =
      let free = unused r.now s.next_finding same (omega arith) in rw (valid, free) refl

  after_one-IsUnused :
      (date : String) (r : Request) (s : Store F)
      → IsProper date r
      → IsUnused date s
      → IsUnused date (after_one r s)
  after_one-IsUnused date r s (same, valid) unused now k e h =
      let free = unused now k e (omega (arith, h)) in
      let day = generated_same_day now r.now s.next_finding (same ∙ sym e) in
      let other : (generated_id r.now s.next_finding == generated_id now k) ≡ false =
        ==_false _ _ λ (eq : generated_id r.now s.next_finding ≡ generated_id now k).
          absurd (omega (arith, h, generated_id_inj now s.next_finding k (sym day ∙ eq))) in
      any-append_one (generated_id now k) (row s.next_finding r) s.findings ∙ rw (free, other) refl

  -- In a process in which no stored finding has an id of the date that the counter has still to give, any number of
  -- requests of that date with known severities all succeed, and each adds its row at the end under the next number.
  pub create_all_lem :
      (date : String) (rs : List Request) (s : Store F)
      → All (IsProper date) rs
      → IsUnused date s
      → create_all rs s ≡ (
        ok tt,
        record s {
          findings = s.findings ++ rows_from s.next_finding rs;
          next_finding = s.next_finding + length rs;
        },
      )
  unfolding for_each
  create_all_lem date [] s p u =
      ap (λ fs. stored s fs s.next_finding) (sym (append-nil s.findings))
      ∙ ap (stored s (s.findings ++ [])) (omega arith)
  create_all_lem date (r ∷ rs) s p u =
      for_each_step r rs _ s (after_one r s)
        (ap (λ p. continue p.0 (λ fid. pure tt) p.1) (create_one date r s p.0 u))
      ∙ create_all_lem date rs (after_one r s) p.1 (after_one-IsUnused date r s p.0 u)
      ∙ ap (λ fs. stored s fs (s.next_finding + 1 + length rs))
          (append_assoc s.findings (row s.next_finding r ∷ []) (rows_from (s.next_finding + 1) rs))
      ∙ ap (stored s (s.findings ++ rows_from s.next_finding (r ∷ rs))) (omega arith)
