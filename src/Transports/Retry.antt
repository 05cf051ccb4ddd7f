-- ===== src/Transports/Retry.antt =====
-- backend/app/transports/retry.py. Delays are whole time units; the retryable exceptions are
-- the class names that the policy lists.
use network_operations_platf.Common.{
  ℕ, suc, ◌+◌, ◌*◌, ◌-◌, ◌^◌, ◌≤◌, min, ◌≡◌, Bool, false, Option, none, some, List, any, ◌==◌,
  arith, if◌then◌else◌, ltb,
}
use native.Mathlib.Nat.{pow-suc}

pub record TransportRetryPolicy : Type 0 where
  pub max_attempts : ℕ
  pub base_delay : ℕ
  pub max_delay : ℕ
  pub retryable_status_codes : List ℕ

pub should_retry_status : TransportRetryPolicy → ℕ → Bool
should_retry_status p code = any (λ c. c == code) p.retryable_status_codes

-- `none` is the `ValueError` for an attempt below 1.
pub delay_for_attempt : TransportRetryPolicy → ℕ → Option ℕ
delay_for_attempt p attempt =
    if ltb attempt 1 then none else some (min (p.base_delay * 2 ^ (attempt - 1)) p.max_delay)

delay_at :
    (p : TransportRetryPolicy) (n : ℕ)
    → delay_for_attempt p (suc n) ≡ some (min (p.base_delay * 2 ^ n) p.max_delay)
unfolding delay_for_attempt
delay_at p n =
    let e : suc n - 1 ≡ n = omega arith in let f : ltb (suc n) 1 ≡ false = ground arith in rw (f, e)

doubled : (b n : ℕ) → b * 2 ^ suc n ≡ b * 2 ^ n + b * 2 ^ n
doubled b n = rw (pow-suc 2 n) (grind arith)

-- From the first attempt on there is a delay; it never passes the maximum, and the next attempt
-- waits at least as long and at most twice as long.
delay_grows :
    (p : TransportRetryPolicy) (n : ℕ)
    → (d : ℕ) × (e : ℕ) × (delay_for_attempt p (suc n) ≡ some d)
      × (delay_for_attempt p (suc (suc n)) ≡ some e)
      × (d ≤ e)
      × (e ≤ d + d)
      × (e ≤ p.max_delay)
delay_grows p n = (
  min (p.base_delay * 2 ^ n) p.max_delay,
  min (p.base_delay * 2 ^ suc n) p.max_delay,
  delay_at p n,
  delay_at p (suc n),
  omega (arith, doubled p.base_delay n),
  omega (arith, doubled p.base_delay n),
  omega arith,
)
