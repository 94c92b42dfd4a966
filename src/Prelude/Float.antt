-- ===== src/Prelude/Float.antt =====
-- Python's `float` as an interface: the operations that the program uses, and the few laws of
-- IEEE arithmetic that some theorems take as hypotheses. `exact` is an instance over the natural
-- numbers, for tests.
use sonic_watchtower.Prelude.{
  ◌+◌, ◌-◌, ◌*◌, ◌/◌, ltb, leb, arith, ℕ, String, ◌≡◌, Bool, true, false, Option,
}
use sonic_watchtower.Prelude.Text.{int_of}

pub record Float (F : Type 0) : Type 0 where
  pub flt : F → F → Bool
  pub fle : F → F → Bool
  pub fadd : F → F → F
  pub fsub : F → F → F
  pub fmul : F → F → F
  pub fdiv : F → F → F
  -- `float(n)`; `scaled n k` is the literal n / 10 ^ k; `negative x` is -x.
  pub of_ℕ : ℕ → F
  pub scaled : ℕ → ℕ → F
  pub negative : F → F
  pub infinity : F
  -- `float(s)`, `none` where it raises ValueError
  pub parse : String → Option F
  -- `f"{x:.kf}"`
  pub fixed : ℕ → F → String

-- `<` is transitive and irreflexive on all floats, NaN included, and `a < b ≤ c` gives `a < c`.
pub record IsOrdered {F : Type 0} (fl : Float F) : Type 0 where
  pub flt_trans : (a b c : F) → fl.flt a b ≡ true → fl.flt b c ≡ true → fl.flt a c ≡ true
  pub flt_irrefl : (a : F) → fl.flt a a ≡ false
  pub flt_of_flt-fle : (a b c : F) → fl.flt a b ≡ true → fl.fle b c ≡ true → fl.flt a c ≡ true
  pub fle_trans : (a b c : F) → fl.fle a b ≡ true → fl.fle b c ≡ true → fl.fle a c ≡ true

-- Exact arithmetic on natural numbers: no fractions, and no numbers below 0.
abbrev pub exact : Float ℕ
exact = record {
  flt = ltb;
  fle = leb;
  fadd = λ a b. a + b;
  fsub = λ a b. a - b;
  fmul = λ a b. a * b;
  fdiv = λ a b. a / b;
  of_ℕ = λ n. n;
  scaled = λ n k. n;
  negative = λ a. 0;
  infinity = 1000000;
  parse = int_of;
  fixed = λ k a. "";
}

pub exact-IsOrdered : IsOrdered exact
exact-IsOrdered = record {
  flt_trans = λ a b c h k. ground arith;
  flt_irrefl = λ a. ground arith;
  flt_of_flt-fle = λ a b c h k. ground arith;
  fle_trans = λ a b c h k. ground arith;
}
