-- ===== src/Retry/Policy/Delays.antt =====
-- Bounds on the delays, and their growth (src/retry/policy.rs).
use native.Mathlib.Nat.{
  min-le_left, min-le_right, le-min, le_trans, mul-le-mul_left, mul-le-mul_right, pow-le-pow_right,
  mod-le, div-mul-le_self,
}
use cli_framework.Prelude.{
  some-inj, ℕ, ◌+◌, ◌*◌, ◌/◌, ◌^◌, ◌≤◌, ◌<◌, min, ◌≡◌, refl, subst, Bool, true, false, Option, some,
  arith, ltb, leb, Bool-cases, Option-cases, inl, inr, ltb_iff,
}
use cli_framework.Retry.Policy
use cli_framework.Retry.Policy.{
  Duration, RetryStrategy, RetryPolicy, from_millis, as_millis, within_duration, times_u64,
  delay_for_attempt,
}

-- The most that a strategy may ask to wait.
abbrev pub cap_of : RetryStrategy → Duration
cap_of Policy.no_retry = 0
cap_of (Policy.fixed delay) = delay
cap_of (Policy.exponential initial cap) = cap
cap_of (Policy.linear initial increment cap) = cap

cap-le : (delay cap : ℕ) → from_millis (min delay (as_millis cap)) ≤ cap
cap-le delay cap = le_trans (mul-le-mul_right 1000000 (min-le_right delay (as_millis cap))) (
    le_trans (mul-le-mul_right 1000000 (mod-le (cap / 1000000) (2 ^ 64)))
      (div-mul-le_self cap 1000000))

bounded :
    (checks : Bool) (attempts attempt d : ℕ) (strategy : RetryStrategy) (timeout : Option Duration)
    (retry : Bool)
    → delay_for_attempt checks
        (record {
          max_attempts = attempts;
          strategy = strategy;
          timeout = timeout;
          retry_on_timeout = retry;
        })
        attempt
      ≡ some d
    → d ≤ cap_of strategy
unfolding delay_for_attempt
bounded checks attempts attempt d Policy.no_retry timeout retry h = ground arith
bounded checks attempts attempt d (Policy.fixed delay) timeout retry h = ground arith
bounded checks attempts attempt d (Policy.exponential initial cap) timeout retry h =
    elim (Bool-cases (leb attempts attempt)) [
      | inl e ↦ ground arith
      | inr e ↦ elim (Option-cases (times_u64 checks (as_millis initial) (2 ^ min attempt 10))) [
        | inl k ↦ cc (rw (delay_for_attempt, e, k) at h)
        | inr (delay, k) ↦
            subst (λ x. x ≤ cap) (some-inj (rw (delay_for_attempt, e, k) at h)) (cap-le delay cap)
      ]
    ]
bounded checks attempts attempt d (Policy.linear initial increment cap) timeout retry h =
    elim (Bool-cases (leb attempts attempt)) [
      | inl e ↦ ground arith
      | inr e ↦ elim (Bool-cases (leb (increment * attempt) Policy.max_duration)) [
        | inr k ↦ cc (rw (delay_for_attempt, e, k) at h)
        | inl k ↦ elim (Bool-cases (leb (initial + increment * attempt) Policy.max_duration)) [
          | inr l ↦ cc (rw (delay_for_attempt, e, k, l) at h)
          | inl l ↦
              subst (λ x. x ≤ cap) (some-inj (rw (delay_for_attempt, e, k, l) at h))
                (min-le_right (initial + increment * attempt) cap)
        ]
      ]
    ]

-- A delay never passes the cap of the strategy.
pub delay_for_attempt-le :
    (checks : Bool) (policy : RetryPolicy) (attempt d : ℕ)
    → delay_for_attempt checks policy attempt ≡ some d
    → d ≤ cap_of policy.strategy
delay_for_attempt-le checks policy attempt d =
    bounded checks policy.max_attempts attempt d policy.strategy policy.timeout
      policy.retry_on_timeout

-- The exponential delay without overflow.
abbrev pub backoff : Duration → Duration → ℕ → Duration
backoff initial cap attempt =
    from_millis (min (as_millis initial * 2 ^ min attempt 10) (as_millis cap))

exponential_delay :
    (checks : Bool) (policy : RetryPolicy) (initial cap : Duration) (attempt : ℕ)
    → policy.strategy ≡ Policy.exponential initial cap
    → as_millis initial * 2 ^ 10 < 2 ^ 64
    → attempt < policy.max_attempts
    → delay_for_attempt checks policy attempt ≡ some (backoff initial cap attempt)
unfolding delay_for_attempt times_u64
exponential_delay checks policy initial cap attempt strategy small more =
    let power : as_millis initial * 2 ^ min attempt 10 ≤ as_millis initial * 2 ^ 10 =
      mul-le-mul_left (as_millis initial)
        (pow-le-pow_right {n = 2} (omega arith) (min-le_right attempt 10)) in
    let fits : ltb (as_millis initial * 2 ^ min attempt 10) (2 ^ 64) ≡ true =
      (ltb_iff _ _).1 (omega (arith, power, small)) in
    let running : leb policy.max_attempts attempt ≡ false = ground arith in
    rw (delay_for_attempt, running, strategy, times_u64, fits) refl

-- Where the initial delay is small enough for ten doublings, the exponential delay of an attempt
-- that may be followed by another is the initial one doubled per attempt, ten times at most, and
-- cut at the cap; it never panics, and never falls from one attempt to a later one.
pub exponential-grows :
    (checks : Bool) (policy : RetryPolicy) (initial cap : Duration) (earlier later : ℕ)
    → policy.strategy ≡ Policy.exponential initial cap
    → as_millis initial * 2 ^ 10 < 2 ^ 64
    → earlier ≤ later
    → later < policy.max_attempts
    → (delay_for_attempt checks policy earlier ≡ some (backoff initial cap earlier))
      × ((delay_for_attempt checks policy later ≡ some (backoff initial cap later))
          × (backoff initial cap earlier ≤ backoff initial cap later))
exponential-grows checks policy initial cap earlier later strategy small order more = (
  exponential_delay checks policy initial cap earlier strategy small (omega (arith, order, more)),
  (
    exponential_delay checks policy initial cap later strategy small more,
    mul-le-mul_right 1000000 (
        le-min
          (le_trans (min-le_left _ _) (
            mul-le-mul_left (as_millis initial) (
              pow-le-pow_right {n = 2} (omega arith)
                (le-min (le_trans (min-le_left earlier 10) order) (min-le_right earlier 10)))))
          (min-le_right _ _)),
  ),
)
