-- ===== src/Retry/Executor/Sleeps.antt =====
-- The sleeps of a run (src/retry/executor.rs, src/retry/executor_async.rs).
use cli_framework.Prelude.{
  ℕ, zero, suc, ◌≤◌, String, Bool, not, ◌&&◌, Option, none, some, Result, ltb, leb, All, Bool-cases,
  Option-cases, Result-cases, inl, inr,
}
use cli_framework.Retry.Policy.{Duration, RetryPolicy, delay_for_attempt}
use cli_framework.Retry.Policy.Delays.{cap_of, delay_for_attempt-le}
use cli_framework.Retry.Executor.{
  Run, Timed, after_delay, is_refused, attempt_once, async_attempts_from, async_execute,
}

abbrev pub IsCapped : {E T S : Type 0} → Duration → Run E T S → Type 0
IsCapped cap run = All (λ d. d ≤ cap) run.sleeps

after_delay-IsCapped :
    {E T S : Type 0} (cap delay : Duration) (run : Run E T S)
    → delay ≤ cap
    → IsCapped cap run
    → IsCapped cap (after_delay delay run)
unfolding after_delay
after_delay-IsCapped cap delay run h k = elim (Bool-cases (ltb 0 delay)) [
  | inl e ↦ rw (after_delay, e) (h, k)
  | inr e ↦ rw (after_delay, e) k
]

async_attempts_from-IsCapped :
    {E T S : Type 0} (anyhow : String → E) (checks : Bool) (policy : RetryPolicy)
    (classifier : Option (E → Bool)) (once : S → Result E T × (Bool × S)) (left attempt : ℕ)
    (last : Option E) (s : S)
    → IsCapped
        (cap_of policy.strategy)
        (async_attempts_from anyhow checks policy classifier once left attempt last s)
unfolding async_attempts_from
async_attempts_from-IsCapped anyhow checks policy classifier once zero attempt last s = tt
async_attempts_from-IsCapped anyhow checks policy classifier once (suc left) attempt last s =
    elim (Result-cases (once s).0) [
      | inl (value, h) ↦ rw (async_attempts_from, h) tt
      | inr (e, h) ↦ elim (Bool-cases ((once s).1.0 && not policy.retry_on_timeout)) [
        | inl a ↦ rw (async_attempts_from, h, a) tt
        | inr a ↦ elim (Bool-cases (is_refused classifier e)) [
          | inl b ↦ rw (async_attempts_from, h, a, b) tt
          | inr b ↦ elim (Bool-cases (leb policy.max_attempts attempt)) [
            | inl c ↦ rw (async_attempts_from, h, a, b, c) tt
            | inr c ↦ elim (Option-cases (delay_for_attempt checks policy attempt)) [
              | inl d ↦ rw (async_attempts_from, h, a, b, c, d) tt
              | inr (delay, d) ↦
                  rw (async_attempts_from, h, a, b, c, d)
                    (after_delay-IsCapped (cap_of policy.strategy) delay
                      (async_attempts_from anyhow checks policy classifier once left (suc attempt)
                        (some e) (once s).1.1)
                      (delay_for_attempt-le checks policy attempt delay d)
                      (async_attempts_from-IsCapped anyhow checks policy classifier once left
                        (suc attempt) (some e) (once s).1.1))
            ]
          ]
        ]
      ]
    ]

-- No sleep of a run passes the cap of the policy's strategy.
pub async_execute-IsCapped :
    {E T S : Type 0} (anyhow : String → E) (checks : Bool) (policy : RetryPolicy)
    (classifier : Option (E → Bool)) (timed : Timed E T S) (operation : S → Result E T × S) (s : S)
    → IsCapped
        (cap_of policy.strategy)
        (async_execute anyhow checks policy classifier timed operation s)
unfolding async_execute
async_execute-IsCapped anyhow checks policy classifier timed operation s =
    async_attempts_from-IsCapped anyhow checks policy classifier
      (attempt_once anyhow policy timed operation) (suc policy.max_attempts) 0 none s
