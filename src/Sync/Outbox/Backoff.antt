-- ===== src/Sync/Outbox/Backoff.antt =====
-- The delay before a retry.
use expensesapp.Prelude.{ℕ, zero, suc, ◌≤◌, ◌≡◌, ◌^◌, ◌-◌, arith, refl}
use expensesapp.Sync.Outbox.{retry_delay_ms, retry_base_ms, retry_max_ms}

pow_pos : (n : ℕ) → 1 ≤ 2 ^ n
pow_pos zero = omega arith
pow_pos (suc n) = omega (arith, pow_pos n)

pow_step : (n : ℕ) → 2 ^ n ≤ 2 ^ suc n
pow_step n = omega (arith, pow_pos n)

pow_grows : (n : ℕ) → 2 ^ (n - 1) ≤ 2 ^ n
pow_grows zero = omega arith
pow_grows (suc n) = let e : suc n - 1 ≡ n = omega arith in rw e (pow_step n)

suc_pred : (n : ℕ) → 2 ^ (suc n - 1) ≡ 2 ^ n
suc_pred n = let e : suc n - 1 ≡ n = omega arith in rw e refl

-- The delay lies between the base delay and five minutes, does not shrink with one more attempt,
-- and is the base delay after the first.
pub retry_delay-bounds :
    (attempts : ℕ)
    → (retry_base_ms ≤ retry_delay_ms attempts)
      × (retry_delay_ms attempts ≤ retry_max_ms)
      × (retry_delay_ms attempts ≤ retry_delay_ms (suc attempts))
      × (retry_delay_ms 1 ≡ retry_base_ms)
unfolding retry_delay_ms
retry_delay-bounds attempts =
    ground (arith, pow_pos (attempts - 1), pow_grows attempts, suc_pred attempts)
