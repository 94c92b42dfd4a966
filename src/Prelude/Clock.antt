-- ===== src/Prelude/Clock.antt =====
-- A reading of the wall clock, with the broken-down forms that the program asks `datetime` for.
-- Timestamps are kept as seconds: the program's text form has one width and orders as they do.
use sonic_watchtower.Prelude.{ℕ, String}

pub record Moment : Type 0 where
  pub seconds : ℕ
  -- `strftime("%Y%m%d")`, `strftime("%Y-%m-%d %H:%M:%S UTC")`, `strftime("%Y-%m-%dT%H:%M:%SZ")`
  pub date : String
  pub clock_text : String
  pub iso_text : String
  pub weekday : ℕ
  pub hour : ℕ
