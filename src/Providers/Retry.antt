-- ===== src/Providers/Retry.antt =====
-- RetryableProvider of engine/provider/retry.go. The provider within, the cancellation and the clock are an
-- `Inner`, whose calls change a world; the length of a wait is left to it.
pub mod Attempts
use brockleyai.Prelude.{
  Str, ℕ, zero, suc, ◌==◌, Bool, true, false, ◌||◌, not, Option, none, some, ℤ, pos, negsuc, Result,
  ok, err, if◌then◌else◌,
}

-- An error, and `Retryable` and `RetryAfter` if it is a ProviderError.
pub record Failure : Type 0 where
  pub message : Str
  pub retry : Option (Bool × ℤ)

pub record Inner (W R : Type 0) : Type 0 where
  pub call : W → Result Failure R × W
  pub is_done : W → Bool
  -- The wait behind the given attempt: true if it was cancelled.
  pub wait : W → ℕ → ℤ → Bool × W

unfoldable pub is_retryable : Failure → Bool
is_retryable e = elim e.retry [ none ↦ false | some (retryable, _) ↦ retryable ]

unfoldable pub retry_after : Failure → ℤ
retry_after e = elim e.retry [ none ↦ pos 0 | some (_, seconds) ↦ seconds ]

module _ {W R : Type 0} (inner : Inner W R) where
  -- The loop: how often it can still turn, the bound on retries, the attempt and the last error.
  unfoldable pub attempts : ℕ → ℕ → ℕ → Option Failure → W → Result (Option Failure) R × W
  attempts zero max attempt last w = (err last, w)
  attempts (suc left) max attempt last w =
      let (answer, w') = inner.call w in
      elim answer [
        | ok resp ↦ (ok resp, w')
        | err e ↦
            if not (is_retryable e)
            then (err (some e), w')
            else if inner.is_done w'
            then (err (some e), w')
            else if attempt == max
            then (err (some e), w')
            else (let (cancelled, w'') = inner.wait w' attempt (retry_after e) in
                let rest = attempts left max (suc attempt) (some e) w'' in
                if cancelled then (err (some e), w'') else rest)
      ]

  -- Complete and Stream; `err none` is a nil response without an error.
  unfoldable pub complete : ℤ → W → Result (Option Failure) R × W
  unfolding attempts
  complete (pos max) w = attempts (suc max) max 0 none w
  complete (negsuc m) w = (err none, w)
