-- ===== src/Retry/Executor/Plain.antt =====
-- The two executors agree (src/retry/executor.rs, src/retry/executor_async.rs).
use cli_framework.Prelude.{
  ℕ, zero, suc, String, ◌≡◌, refl, ap, ◌∙◌, ◌≤◌, arith, subst, Bool, false, Option, none, some,
  Result, leb, Bool-cases, Option-cases, Result-cases, inl, inr,
}
use mathlib.Core.Path.{fun_ext}
use cli_framework.Retry.Executor.Outcomes.{HasDelays, Failing, Ends, Loop, loop}
use cli_framework.Retry.Policy.{RetryPolicy, delay_for_attempt}
use cli_framework.Retry.Executor.{
  Timed, after_delay, attempt_once, attempts_from, execute, async_attempts_from, async_execute,
}

-- An attempt without a timeout.
pub untimed_once : {E T S : Type 0} → (S → Result E T × S) → S → Result E T × (Bool × S)
untimed_once operation s = ((operation s).0, (false, (operation s).1))

module _ {E T S : Type 0} (anyhow : String → E) (checks : Bool) (policy : RetryPolicy)
    (operation : S → Result E T × S) where
  loops_agree :
      (n attempt : ℕ) (last : Option E) (s : S)
      → async_attempts_from anyhow checks policy none (untimed_once operation) n attempt last s
        ≡ attempts_from anyhow checks policy operation n attempt last s
  unfolding async_attempts_from attempts_from untimed_once
  loops_agree zero attempt last s = refl
  loops_agree (suc n) attempt last s = elim (Result-cases (operation s).0) [
    | inl (value, h) ↦ rw (async_attempts_from, attempts_from, h) refl
    | inr (e, h) ↦ elim (Bool-cases (leb policy.max_attempts attempt)) [
      | inl c ↦ rw (async_attempts_from, attempts_from, h, c) refl
      | inr c ↦ elim (Option-cases (delay_for_attempt checks policy attempt)) [
        | inl d ↦ rw (async_attempts_from, attempts_from, h, c, d) refl
        | inr (delay, d) ↦
            rw (async_attempts_from, attempts_from, h, c, d)
              (ap (after_delay delay) (loops_agree n (suc attempt) (some e) (operation s).1))
      ]
    ]
  ]

module _ {E T S : Type 0} (anyhow : String → E) (checks : Bool) (policy : RetryPolicy)
    (timed : Timed E T S) (operation : S → Result E T × S) where
  attempt_once-untimed :
      policy.timeout ≡ none → attempt_once anyhow policy timed operation ≡ untimed_once operation
  unfolding attempt_once untimed_once
  attempt_once-untimed untimed = fun_ext (λ s. rw (attempt_once, untimed) refl)

  -- Without a timeout and a classifier the asynchronous executor runs as the other one does: the
  -- same outcome after the same calls and sleeps.
  pub async_execute-execute :
      policy.timeout ≡ none
      → (s : S)
      → async_execute anyhow checks policy none timed operation s
        ≡ execute anyhow checks policy operation s
  unfolding async_execute execute
  async_execute-execute untimed s =
      ap
        (λ once.
          async_attempts_from anyhow checks policy none once (suc policy.max_attempts) 0 none s)
        (attempt_once-untimed untimed)
      ∙ loops_agree anyhow checks policy operation (suc policy.max_attempts) 0 none s

-- Where no delay overflows, the executor returns the value of the first attempt that succeeds, if
-- one of the first does, as many as the policy allows retries and one more, and otherwise the
-- error of the last of these; it calls the operation no more often than that.
pub execute_lem :
    {E T S : Type 0} (anyhow : String → E) (checks : Bool) (policy : RetryPolicy)
    (operation : S → Result E T × S) (s : S)
    → HasDelays checks policy
    → (k : ℕ) × ((t : S) × ((k ≤ policy.max_attempts)
          × (Failing policy none (untimed_once operation) k s t
              × Ends policy none
                  (untimed_once operation)
                  (k ≡ policy.max_attempts)
                  k
                  t
                  (execute anyhow checks policy operation s))))
unfolding execute
execute_lem anyhow checks policy operation s delays =
    subst (Loop anyhow checks policy none (untimed_once operation) policy.max_attempts 0 s)
      (loops_agree anyhow checks policy operation (suc policy.max_attempts) 0 none s)
      (loop anyhow checks policy none (untimed_once operation) policy.max_attempts 0 none s
        (omega arith) delays)
