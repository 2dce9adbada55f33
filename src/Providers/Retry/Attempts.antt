-- ===== src/Providers/Retry/Attempts.antt =====
-- Which call of the provider within gives the result of a call with retries.
use brockleyai.Prelude.{
  ℕ, zero, suc, ◌+◌, ◌≤◌, ◌≡◌, refl, sym, ap, ◌==◌, Bool, true, false, not, Option, none, some, pos,
  Result, ok, err, if◌then◌else◌, arith,
}
use brockleyai.Providers.Retry.{Failure, Inner, is_retryable, retry_after, attempts, complete}

module _ {W R : Type 0} (inner : Inner W R) where
  -- From an attempt in a world to a later one: each call between them fails with an error that can be
  -- retried, and neither it nor the wait behind it is cancelled.
  pub data Retries (b : ℕ) (w' : W) : ℕ → W → Type 0 where
    here : Retries b w' b w'
    again :
        {a : ℕ} {w : W} (e : Failure) (w₁ w₂ : W)
        → inner.call w ≡ (err e, w₁)
        → is_retryable e ≡ true
        → inner.is_done w₁ ≡ false
        → inner.wait w₁ a (retry_after e) ≡ (false, w₂)
        → Retries b w' (suc a) w₂
        → Retries b w' a w

  abbrev pub returned : Result Failure R → Result (Option Failure) R
  returned (ok resp) = ok resp
  returned (err e) = err (some e)

  -- The call that ends the loop, and what it returns.
  abbrev pub Last : ℕ → ℕ → W → Result (Option Failure) R → Type 0
  Last max a w r =
      (b : ℕ) × (w' : W) × Retries b w' a w × (b ≤ max) × (r ≡ returned (inner.call w').0)

  -- The loop ends with the call at hand.
  ends_here :
      {max a : ℕ} {w w' : W} (r : Result Failure R)
      → inner.call w ≡ (r, w')
      → a ≤ max
      → Last max a w (returned r)
  ends_here {a = a} {w = w} r called bounded =
      (a, w, here, bounded, ap (λ p. returned p.0) (sym called))

  by_test :
      {A : Type 0} (P : A → Type 0) (b : Bool) {x y : A}
      → (b ≡ true → P x)
      → (b ≡ false → P y)
      → P (if b then x else y)
  by_test P true h k = h refl
  by_test P false h k = k refl

  -- One turn of the loop, by the answer of the call.
  attempt-Last :
      (left max a : ℕ) (w : W)
      → a ≤ max
      → (r : Result Failure R) (w₁ : W) → inner.call w ≡ (r, w₁)
      → ((a == max) ≡ false
          → (e : Failure) (w₂ : W)
          → Last max (suc a) w₂ (attempts inner left max (suc a) (some e) w₂).0)
      → Last max a w
          (elim r as (λ _. Result (Option Failure) R × W) [
            | ok resp ↦ (ok resp, w₁)
            | err e ↦
                if not (is_retryable e)
                then (err (some e), w₁)
                else if inner.is_done w₁
                then (err (some e), w₁)
                else if a == max
                then (err (some e), w₁)
                else if (inner.wait w₁ a (retry_after e)).0
                then (err (some e), (inner.wait w₁ a (retry_after e)).1)
                else attempts inner left max (suc a) (some e) (inner.wait w₁ a (retry_after e)).1
          ]).0
  attempt-Last left max a w bounded (ok resp) w₁ called rest = ends_here (ok resp) called bounded
  attempt-Last left max a w bounded (err e) w₁ called rest =
      let P : Result (Option Failure) R × W → Type 0 = λ p. Last max a w p.0 in
      let stop : Last max a w (err (some e)) = ends_here (err e) called bounded in
      by_test P (not (is_retryable e)) (λ _. stop)
        (λ retryable.
          by_test P (inner.is_done w₁) (λ _. stop)
            (λ live.
              by_test P (a == max) (λ _. stop)
                (λ more.
                  by_test P (inner.wait w₁ a (retry_after e)).0 (λ _. stop)
                    (λ waited.
                      let (b, w', tries, below, result) =
                        rest more e (inner.wait w₁ a (retry_after e)).1 in
                      (
                        b,
                        w',
                        again e w₁ _ called (grind (arith, retryable)) live
                            (ap (λ c. (c, (inner.wait w₁ a (retry_after e)).1)) waited) tries,
                        below,
                        result,
                      )))))

  attempts-Last :
      (left max a : ℕ) (last : Option Failure) (w : W)
      → left + a ≡ max
      → Last max a w (attempts inner (suc left) max a last w).0
  unfolding attempts
  attempts-Last zero max a last w total =
      attempt-Last zero max a w (omega (arith, total)) (inner.call w).0 (inner.call w).1 refl
        (λ more. absurd (ground (arith, total, more)))
  attempts-Last (suc left) max a last w total =
      attempt-Last (suc left) max a w (omega (arith, total)) (inner.call w).0 (inner.call w).1 refl
        (λ more e w₂. attempts-Last left max (suc a) (some e) w₂ (omega (arith, total)))

  -- With a bound on retries that is not negative, a call with retries returns what some call of the provider
  -- within returns: the one that follows at most as many retries, each behind a call that failed with an error
  -- that can be retried, neither it nor the wait behind it cancelled.
  pub complete-Last : (max : ℕ) (w : W) → Last max 0 w (complete inner (pos max) w).0
  unfolding complete
  complete-Last max w = attempts-Last max max 0 none w (omega arith)
