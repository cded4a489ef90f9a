-- ===== src/Retry/Executor/Outcomes.antt =====
-- How a run of the asynchronous executor ends (src/retry/executor_async.rs).
use cli_framework.Prelude.{
  ℕ, zero, suc, ◌+◌, ◌≤◌, ◌<◌, String, ◌≡◌, refl, ap, ◌⊎◌, inl, inr, Bool, true, false, not, ◌&&◌,
  Option, none, some, Result, ok, err, arith, leb, is_some, Bool-cases, Option-cases, Result-cases,
}
use cli_framework.Retry.Policy.{RetryPolicy, delay_for_attempt}
use cli_framework.Retry.Executor.{
  Run, returned, after_delay, stop, is_refused, Timed, attempt_once, async_attempts_from,
  async_execute,
}

-- No delay between two attempts overflows.
abbrev pub HasDelays : Bool → RetryPolicy → Type 0
HasDelays checks policy =
    (attempt : ℕ)
    → attempt < policy.max_attempts
    → is_some (delay_for_attempt checks policy attempt) ≡ true

-- An error after which the policy and the classifier let the executor try again.
abbrev pub IsRetryable : {E : Type 0} → RetryPolicy → Option (E → Bool) → E → Bool → Type 0
IsRetryable policy classifier e timed_out =
    ((timed_out && not policy.retry_on_timeout) ≡ false) × (is_refused classifier e ≡ false)

abbrev pub Leaves : {E T S : Type 0} → Run E T S → Result E T → ℕ → S → Type 0
Leaves run result calls after =
    (run.outcome ≡ returned result) × ((run.calls ≡ calls) × (run.state ≡ after))

module _ {E T S : Type 0} (policy : RetryPolicy) (classifier : Option (E → Bool))
    (once : S → Result E T × (Bool × S)) where
  -- So many attempts in a row fail with an error that may be tried again.
  pub data Failing : ℕ → S → S → Type 0 where
    at_once : {s : S} → Failing 0 s s
    again :
        {k : ℕ} {s after final : S} (e : E) (timed_out : Bool)
        → once s ≡ (err e, (timed_out, after))
        → IsRetryable policy classifier e timed_out
        → Failing k after final
        → Failing (suc k) s final

  -- The attempt after `k` failing ones is the last: it succeeds, or fails with the run's error, where
  -- no attempt is left or the error may not be tried again.
  abbrev pub Ends : Type 0 → ℕ → S → Run E T S → Type 0
  Ends exhausted k s run =
      ((value : T) × ((flag : Bool) × ((after : S) × ((once s ≡ (ok value, (flag, after)))
              × Leaves run (ok value) (suc k) after))))
      ⊎ ((e : E) × ((timed_out : Bool) × ((after : S) × ((once s ≡ (err e, (timed_out, after)))
                × ((exhausted ⊎ ¬ IsRetryable policy classifier e timed_out)
                    × Leaves run (err e) (suc k) after)))))

module _ {E T S : Type 0} (anyhow : String → E) (checks : Bool) (policy : RetryPolicy)
    (classifier : Option (E → Bool)) (once : S → Result E T × (Bool × S)) where
  abbrev pub Loop : ℕ → ℕ → S → Run E T S → Type 0
  Loop n attempt s run =
      (k : ℕ) × ((t : S) × ((k ≤ n)
          × (Failing policy classifier once k s t × Ends policy classifier once (k ≡ n) k t run)))

  -- An attempt that fails and is tried again, and a run from there on.
  one_more :
      (n attempt delay : ℕ) (s after : S) (e : E) (timed_out : Bool) (run : Run E T S)
      → once s ≡ (err e, (timed_out, after))
      → IsRetryable policy classifier e timed_out
      → Loop n (suc attempt) after run
      → Loop (suc n) attempt s (after_delay delay run)
  unfolding after_delay
  one_more n attempt delay s after e timed_out run h retry (k, (t, (le, (failing, ends)))) = (
    suc k,
    (
      t,
      (
        omega (arith, le),
        (
          again e timed_out h retry failing,
          elim ends [
            | inl (value, (flag, (final, (at_end, (outcome, (calls, state)))))) ↦
                inl (value, (flag, (final, (at_end, (outcome, (ap suc calls, state))))))
            | inr (x, (flag, (final, (at_end, (why, (outcome, (calls, state))))))) ↦ inr (
              x,
              (
                flag,
                (
                  final,
                  (
                    at_end,
                    (
                      elim why [ inl last ↦ inl (ap suc last) | inr refused ↦ inr refused ],
                      (outcome, (ap suc calls, state)),
                    ),
                  ),
                ),
              ),
            )
          ],
        ),
      ),
    ),
  )

  stops :
      (n attempt : ℕ) (s after : S) (e : E) (timed_out : Bool)
      → once s ≡ (err e, (timed_out, after))
      → (0 ≡ n) ⊎ ¬ IsRetryable policy classifier e timed_out
      → Loop n attempt s (stop (returned (err e)) after)
  stops n attempt s after e timed_out h why = (
    0,
    (s, (omega arith, (at_once, inr (e, (timed_out, (after, (h, (why, (refl, (refl, refl)))))))))),
  )

  -- One attempt of the loop, given what follows a delay.
  one_attempt :
      (n attempt : ℕ) (last : Option E) (s : S)
      → attempt + n ≡ policy.max_attempts
      → HasDelays checks policy
      → ((e : E) (delay : ℕ)
          → once s ≡ (err e, ((once s).1.0, (once s).1.1))
          → IsRetryable policy classifier e (once s).1.0
          → attempt < policy.max_attempts
          → Loop n attempt s (
              after_delay delay (
                async_attempts_from anyhow checks policy classifier once n
                  (suc attempt)
                  (some e)
                  (once s).1.1)))
      → Loop n attempt s
          (async_attempts_from anyhow checks policy classifier once (suc n) attempt last s)
  unfolding async_attempts_from
  one_attempt n attempt last s left delays more =
      let flag = (once s).1.0 in
      let after = (once s).1.1 in
      elim (Result-cases (once s).0) [
        | inl (value, h) ↦
            rw (async_attempts_from, h)
              (
                0,
                (
                  s,
                  (
                    omega arith,
                    (
                      at_once,
                      inl (
                        value,
                        (flag, (after, (ap (λ x. (x, (once s).1)) h, (refl, (refl, refl))))),
                      ),
                    ),
                  ),
                ),
              )
        | inr (e, h) ↦
            let whole : once s ≡ (err e, (flag, after)) = ap (λ x. (x, (once s).1)) h in
            elim (Bool-cases (flag && not policy.retry_on_timeout)) [
              | inl a ↦
                  rw (async_attempts_from, h, a)
                    (stops n attempt s after e flag whole (inr (λ (retry, _). cc)))
              | inr a ↦ elim (Bool-cases (is_refused classifier e)) [
                | inl b ↦
                    rw (async_attempts_from, h, a, b)
                      (stops n attempt s after e flag whole (inr (λ (_, accepts). cc)))
                | inr b ↦ elim (Bool-cases (leb policy.max_attempts attempt)) [
                  | inl c ↦
                      rw (async_attempts_from, h, a, b, c)
                        (stops n attempt s after e flag whole (inl (ground (arith, left))))
                  | inr c ↦
                      let running : attempt < policy.max_attempts = ground arith in
                      elim (Option-cases (delay_for_attempt checks policy attempt)) [
                        | inl d ↦ cc (delays attempt running)
                        | inr (delay, d) ↦
                            rw (async_attempts_from, h, a, b, c, d)
                              (more e delay whole (a, b) running)
                      ]
                ]
              ]
            ]
      ]

  pub loop :
      (n attempt : ℕ) (last : Option E) (s : S)
      → attempt + n ≡ policy.max_attempts
      → HasDelays checks policy
      → Loop n attempt s
          (async_attempts_from anyhow checks policy classifier once (suc n) attempt last s)
  loop zero attempt last s left delays =
      one_attempt zero attempt last s left delays
        (λ e delay h retry more. let no : ⊥ = omega (arith, left, more) in elim no [ ])
  loop (suc n) attempt last s left delays =
      one_attempt (suc n) attempt last s left delays (λ e delay h retry more.
        one_more n attempt delay s (once s).1.1 e (once s).1.0
          (async_attempts_from anyhow checks policy classifier once (suc n) (suc attempt) (some e)
            (once s).1.1)
          h retry (loop n (suc attempt) (some e) (once s).1.1 (omega (arith, left)) delays))

-- Where no delay overflows, a run makes at least one attempt and at most one more than the policy
-- allows retries: some attempts fail with an error that may be tried again, and the one after them
-- is the last. It succeeds, and its value is returned; or it fails with the error that is returned,
-- and no attempt is left or the policy or the classifier does not let it be tried again.
pub async_execute_lem :
    {E T S : Type 0} (anyhow : String → E) (checks : Bool) (policy : RetryPolicy)
    (classifier : Option (E → Bool)) (timed : Timed E T S) (operation : S → Result E T × S) (s : S)
    → HasDelays checks policy
    → (k : ℕ) × ((t : S) × ((k ≤ policy.max_attempts)
          × (Failing policy classifier (attempt_once anyhow policy timed operation) k s t
              × Ends policy classifier
                  (attempt_once anyhow policy timed operation)
                  (k ≡ policy.max_attempts)
                  k
                  t
                  (async_execute anyhow checks policy classifier timed operation s))))
unfolding async_execute
async_execute_lem anyhow checks policy classifier timed operation s delays =
    loop anyhow checks policy classifier (attempt_once anyhow policy timed operation)
      policy.max_attempts 0 none s (omega arith) delays
