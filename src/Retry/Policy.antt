-- ===== src/Retry/Policy.antt =====
-- src/retry/policy.rs. A duration is its nanoseconds. The arithmetic of the standard library's
-- durations panics past the largest one, and that of machine integers where overflow checks are
-- compiled in: `none` is a panic.
pub mod Delays
use cli_framework.Prelude.{
  ℕ, ◌+◌, ◌-◌, ◌*◌, ◌/◌, ◌%◌, ◌^◌, min, Bool, true, false, Option, none, some, ltb, leb,
  if◌then◌else◌,
}

abbrev pub Duration : Type 0
Duration = ℕ

-- 2 ^ 64 seconds less a nanosecond.
abbrev pub max_duration : Duration
max_duration = 2 ^ 64 * 1000000000 - 1

abbrev pub from_millis : ℕ → Duration
from_millis n = n * 1000000

-- `duration.as_millis() as u64`
abbrev pub as_millis : Duration → ℕ
as_millis d = (d / 1000000) % 2 ^ 64

abbrev pub within_duration : ℕ → Option Duration
within_duration d = if leb d max_duration then some d else none

pub data RetryStrategy : Type 0 where
  no_retry : RetryStrategy
  fixed : Duration → RetryStrategy
  exponential : Duration → Duration → RetryStrategy
  linear : Duration → Duration → Duration → RetryStrategy

pub record RetryPolicy : Type 0 where
  pub max_attempts : ℕ
  pub strategy : RetryStrategy
  pub timeout : Option Duration
  pub retry_on_timeout : Bool

unfoldable pub new_policy : ℕ → RetryStrategy → RetryPolicy
new_policy attempts chosen = record {
  max_attempts = attempts;
  strategy = chosen;
  timeout = none;
  retry_on_timeout = true;
}

unfoldable pub no_retries : RetryPolicy
no_retries = record {
  max_attempts = 0;
  strategy = no_retry;
  timeout = none;
  retry_on_timeout = false;
}

unfoldable pub fixed_delay : ℕ → Duration → RetryPolicy
fixed_delay attempts delay = record {
  max_attempts = attempts;
  strategy = fixed delay;
  timeout = none;
  retry_on_timeout = true;
}

unfoldable pub exponential_backoff : ℕ → Duration → Duration → RetryPolicy
exponential_backoff attempts initial cap = record {
  max_attempts = attempts;
  strategy = exponential initial cap;
  timeout = none;
  retry_on_timeout = true;
}

unfoldable pub with_timeout : RetryPolicy → Duration → RetryPolicy
with_timeout policy limit = record policy { timeout = some limit }

unfoldable pub with_retry_on_timeout : RetryPolicy → Bool → RetryPolicy
with_retry_on_timeout policy retry = record policy { retry_on_timeout = retry }

unfoldable pub default_policy : RetryPolicy
default_policy = fixed_delay 3 (from_millis 500)

-- `a * b` of two `u64`: a panic where overflow is checked, else the product's low bits.
unfoldable pub times_u64 : Bool → ℕ → ℕ → Option ℕ
times_u64 overflow_checks a b =
    if ltb (a * b) (2 ^ 64)
    then some (a * b)
    else if overflow_checks
    then none
    else some ((a * b) % 2 ^ 64)

unfoldable pub delay_for_attempt : Bool → RetryPolicy → ℕ → Option Duration
delay_for_attempt overflow_checks policy attempt =
    if leb policy.max_attempts attempt then some 0 else elim policy.strategy [
      | no_retry ↦ some 0
      | fixed delay ↦ some delay
      | exponential initial cap ↦
          elim (times_u64 overflow_checks (as_millis initial) (2 ^ min attempt 10)) [
            | some delay ↦ some (from_millis (min delay (as_millis cap)))
            | none ↦ none
          ]
      | linear initial increment cap ↦ elim (within_duration (increment * attempt)) [
        | some growth ↦ elim (within_duration (initial + growth)) [
          | some delay ↦ some (min delay cap)
          | none ↦ none
        ]
        | none ↦ none
      ]
    ]
