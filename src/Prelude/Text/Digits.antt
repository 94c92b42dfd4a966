-- ===== src/Prelude/Text/Digits.antt =====
-- `str` and `f"{n:04d}"` of numbers: no two numbers have the same text.
use Prim.Native.Char.{Char, code}
use text.Mathlib.TextLemmas.{cons-append, nil-append, append_assoc}
use sonic_watchtower.Prelude.{
  ℕ, zero, suc, ◌+◌, ◌-◌, ◌*◌, ◌/◌, ◌%◌, ◌<◌, String, ◌<>◌, ◌≡◌, ap, sym, ◌∙◌, arith, ltb,
  Bool-cases, inl, inr,
}
use sonic_watchtower.Prelude.Text.{digit, decimal_rounds, decimal, decimal4}

-- The number that digits spell behind `n`.
reads : ℕ → String → ℕ
reads n String.[] = n
reads n (String.◌∷◌ c s) = reads (n * 10 + (code c - b'0')) s

reads_one :
    (n : ℕ) (c : Char) (out : String)
    → reads n (String.◌∷◌ c "" <> out) ≡ reads (n * 10 + (code c - b'0')) out
unfolding reads
reads_one n c out = ap (reads n) (cons-append c "" out ∙ ap (λ t. String.◌∷◌ c t) (nil-append out))

reads-digit : (n d : ℕ) (out : String) → d < 10 → reads n (digit d <> out) ≡ reads (n * 10 + d) out
reads-digit n zero out h = reads_one n "0" out
reads-digit n (suc zero) out h = reads_one n "1" out
reads-digit n (suc (suc zero)) out h = reads_one n "2" out
reads-digit n (suc (suc (suc zero))) out h = reads_one n "3" out
reads-digit n (suc (suc (suc (suc zero)))) out h = reads_one n "4" out
reads-digit n (suc (suc (suc (suc (suc zero))))) out h = reads_one n "5" out
reads-digit n (suc (suc (suc (suc (suc (suc zero)))))) out h = reads_one n "6" out
reads-digit n (suc (suc (suc (suc (suc (suc (suc zero))))))) out h = reads_one n "7" out
reads-digit n (suc (suc (suc (suc (suc (suc (suc (suc zero)))))))) out h = reads_one n "8" out
reads-digit n (suc (suc (suc (suc (suc (suc (suc (suc (suc zero))))))))) out h = reads_one n "9" out
reads-digit n (suc (suc (suc (suc (suc (suc (suc (suc (suc (suc d)))))))))) out h =
    absurd (omega (arith, h))

-- The digits of `n` in front of a text spell `n`, with the fuel that `decimal` gives.
reads-decimal_rounds :
    (fuel n : ℕ) (out : String) → n < fuel → reads 0 (decimal_rounds fuel n out) ≡ reads n out
unfolding decimal_rounds
reads-decimal_rounds zero n out h = absurd (omega (arith, h))
reads-decimal_rounds (suc fuel) n out h = elim (Bool-cases (ltb n 10)) [
  | inl small ↦
      rw small (reads-digit 0 n out (ground (arith, small)) ∙ ap (λ m. reads m out) (omega arith))
  | inr large ↦ rw large (
      reads-decimal_rounds fuel (n / 10) (digit (n % 10) <> out) (ground (arith, large, h))
      ∙ reads-digit (n / 10) (n % 10) out (omega arith)
      ∙ ap (λ m. reads m out) (omega arith))
]

reads-decimal : (n : ℕ) → reads 0 (decimal n) ≡ n
unfolding decimal reads
reads-decimal n = reads-decimal_rounds (n + 1) n "" (omega arith)

reads_zero : (t : String) → reads 0 ("0" <> t) ≡ reads 0 t
reads_zero t = reads_one 0 "0" t

reads_zeros : (t : String) → reads 0 ("00" <> t) ≡ reads 0 t
reads_zeros t = ap (reads 0) (append_assoc "0" "0" t) ∙ reads_zero ("0" <> t) ∙ reads_zero t

reads-decimal4 : (n : ℕ) → reads 0 (decimal4 n) ≡ n
unfolding decimal4
reads-decimal4 n = elim (Bool-cases (ltb n 10)) [
  | inl one ↦ rw one (
      ap (reads 0) (append_assoc "0" "00" (decimal n))
      ∙ reads_zero ("00" <> decimal n)
      ∙ reads_zeros (decimal n)
      ∙ reads-decimal n)
  | inr ten ↦ elim (Bool-cases (ltb n 100)) [
    | inl two ↦ rw (ten, two) (reads_zeros (decimal n) ∙ reads-decimal n)
    | inr hundred ↦ elim (Bool-cases (ltb n 1000)) [
      | inl three ↦ rw (ten, hundred, three) (reads_zero (decimal n) ∙ reads-decimal n)
      | inr thousand ↦ rw (ten, hundred, thousand) (reads-decimal n)
    ]
  ]
]

pub decimal4_inj : (m n : ℕ) → decimal4 m ≡ decimal4 n → m ≡ n
decimal4_inj m n e = sym (reads-decimal4 m) ∙ ap (reads 0) e ∙ reads-decimal4 n
