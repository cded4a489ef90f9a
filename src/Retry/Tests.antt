-- ===== src/Retry/Tests.antt =====
-- The theorems on retries at concrete inputs. The world's state is the number of calls made.
use cli_framework.Prelude.{
  ℕ, zero, suc, ◌≤◌, String, ◌≡◌, refl, true, false, [], ◌∷◌, none, some, Result, ok, err, arith,
  eqb, if◌then◌else◌,
}
use cli_framework.Retry.Policy
use cli_framework.Retry.Policy.{
  RetryPolicy, from_millis, new_policy, fixed_delay, exponential_backoff, with_timeout,
  with_retry_on_timeout, times_u64, delay_for_attempt,
}
use cli_framework.Retry.Policy.Delays.{exponential-grows}
use cli_framework.Retry.Executor.{
  Timed, returned, after_delay, attempt_once, attempts_from, execute, async_attempts_from,
  async_execute,
}
use cli_framework.Retry.Executor.Outcomes.{HasDelays, Failing, Ends, async_execute_lem}

-- Two retries after 100 and 200 ms.
abbrev doubling : RetryPolicy
doubling = record {
  max_attempts = 2;
  strategy = Policy.exponential (from_millis 100) (from_millis 150);
  timeout = none;
  retry_on_timeout = true;
}

exponential-grows_example :
    (delay_for_attempt true doubling 0 ≡ some (from_millis 100))
    × ((delay_for_attempt true doubling 1 ≡ some (from_millis 150))
        × (from_millis 100 ≤ from_millis 150))
exponential-grows_example =
    exponential-grows true doubling (from_millis 100) (from_millis 150) 0 1 refl (omega arith)
      (omega arith) (omega arith)

-- The third call succeeds with the number of the calls before it.
abbrev third_time : ℕ → Result String ℕ × ℕ
third_time calls = (if eqb calls 2 then ok calls else err "busy", suc calls)

abbrev in_time : Timed String ℕ ℕ
in_time limit calls = let (result, after) = third_time calls in (some result, after)

abbrev same : String → String
same text = text

doubling-HasDelays : HasDelays true doubling
unfolding delay_for_attempt times_u64
doubling-HasDelays zero h = refl
doubling-HasDelays (suc zero) h = refl
doubling-HasDelays (suc (suc n)) h = let absurd : ⊥ = omega (arith, h) in elim absurd [ ]

third : execute same true doubling third_time 0 ≡ record {
  outcome = returned (ok 2);
  calls = 3;
  sleeps = from_millis 100 ∷ from_millis 150 ∷ [];
  state = 3;
}
unfolding execute attempts_from delay_for_attempt times_u64 after_delay
third = refl

async_execute_lem_example :
    (k : ℕ) × ((t : ℕ) × ((k ≤ 2)
        × (Failing doubling none (attempt_once same doubling in_time third_time) k 0 t
            × Ends doubling none
                (attempt_once same doubling in_time third_time)
                (k ≡ 2)
                k
                t
                (async_execute same true doubling none in_time third_time 0))))
async_execute_lem_example =
    async_execute_lem same true doubling none in_time third_time 0 doubling-HasDelays

-- A timeout is not retried where the policy says so.
gives_up :
    async_execute same true
      (with_retry_on_timeout (with_timeout (fixed_delay 3 5) 1) false)
      none
      (λ limit calls. (none, suc calls))
      third_time
      0
    ≡ record { outcome = returned (err "Operation timed out"); calls = 1; sleeps = []; state = 1 }
unfolding async_execute async_attempts_from attempt_once with_retry_on_timeout with_timeout
    fixed_delay
gives_up = refl
