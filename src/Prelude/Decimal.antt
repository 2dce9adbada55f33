-- ===== src/Prelude/Decimal.antt =====
-- `fmt.Sprintf("%d", n)` for a number that is not negative.
use Prim.Native.Nat.{ℕ, zero, suc, ◌+◌, ◌-◌, ◌*◌, ◌/◌, ◌%◌, ◌<◌}
use mathlib.Core.Path.{◌≡◌, sym, ap, ◌∙◌}
use mathlib.Core.Logic.{inl, inr}
use mathlib.Core.Bool.{true, false}
use mathlib.Core.List.{[], ◌∷◌}
use native.Mathlib.Omega.{arith}
use brockleyai.Prelude.Tests.{◌==◌, Bool-cases}
use brockleyai.Prelude.Text.{Str}

-- The digits of `n`, the last one first found, before `later`.
unfoldable pub decimal_onto : ℕ → ℕ → Str → Str
decimal_onto zero n later = later
decimal_onto (suc fuel) n later = elim (n / 10 == 0) [
  | true ↦ (48 + n % 10) ∷ later
  | false ↦ decimal_onto fuel (n / 10) ((48 + n % 10) ∷ later)
]

unfoldable pub decimal : ℕ → Str
unfolding decimal_onto
decimal n = decimal_onto (suc n) n []

-- The number that digits stand for, behind those that stand for `high`.
abbrev value : ℕ → Str → ℕ
value high [] = high
value high (c ∷ s) = value (high * 10 + (c - 48)) s

value-decimal_onto :
    (fuel n : ℕ) (later : Str) → n < fuel → value 0 (decimal_onto fuel n later) ≡ value n later
unfolding decimal_onto
value-decimal_onto zero n later h = absurd (omega arith)
value-decimal_onto (suc fuel) n later h = elim (Bool-cases (n / 10 == 0)) [
  | inl last ↦
      let small : n / 10 ≡ 0 = ground arith in
      rw (last, decimal_onto) (ap (λ m. value m later) (omega arith))
  | inr more ↦
      let big : 0 < n / 10 = ground arith in
      rw (more, decimal_onto)
        (value-decimal_onto fuel (n / 10) ((48 + n % 10) ∷ later) (omega arith)
          ∙ ap (λ m. value m later) (omega arith))
]

pub decimal_injective : (m n : ℕ) → decimal m ≡ decimal n → m ≡ n
unfolding decimal
decimal_injective m n h =
    sym (value-decimal_onto (suc m) m [] (omega arith))
    ∙ (ap (value 0) h ∙ value-decimal_onto (suc n) n [] (omega arith))
