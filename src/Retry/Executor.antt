-- ===== src/Retry/Executor.antt =====
-- src/retry/executor.rs and src/retry/executor_async.rs. An operation takes the state of the world
-- to its result and the state after it. What a run leaves is its outcome, the number of calls of
-- the operation, the delays slept, in order, and the state.
pub mod Outcomes
pub mod Plain
pub mod Sleeps
use cli_framework.Prelude.{
  ℕ, zero, suc, String, Bool, true, false, not, ◌&&◌, List, [], ◌∷◌, Option, none, some, Result, ok,
  err, ltb, leb, if◌then◌else◌,
}
use cli_framework.Retry.Policy.{Duration, RetryPolicy, delay_for_attempt}

pub data Outcome (E T : Type 0) : Type 0 where
  returned : Result E T → Outcome E T
  panicked : Outcome E T

pub record Run (E T S : Type 0) : Type 0 where
  pub outcome : Outcome E T
  pub calls : ℕ
  pub sleeps : List Duration
  pub state : S

-- A call and a sleep, where the delay is not zero, before the rest of the run.
unfoldable pub after_delay : {E T S : Type 0} → Duration → Run E T S → Run E T S
after_delay delay rest = record rest {
  calls = suc rest.calls;
  sleeps = if ltb 0 delay then delay ∷ rest.sleeps else rest.sleeps;
}

abbrev pub stop : {E T S : Type 0} → Outcome E T → S → Run E T S
stop outcome state = record { outcome = outcome; calls = 1; sleeps = []; state = state }

-- What follows the loop: the last error, if one was recorded. `anyhow` makes an error of a text.
abbrev pub last_or_unrecorded : {E T : Type 0} → (String → E) → Option E → Outcome E T
last_or_unrecorded anyhow (some e) = returned (err e)
last_or_unrecorded anyhow none =
    returned (err (anyhow "Operation failed but no error was recorded"))

-- `tokio::time::timeout`: no result where the time has elapsed.
abbrev pub Timed : Type 0 → Type 0 → Type 0 → Type 0
Timed E T S = Duration → S → Option (Result E T) × S

-- `!clf(&e)`, where there is a classifier.
abbrev pub is_refused : {E : Type 0} → Option (E → Bool) → E → Bool
is_refused none e = false
is_refused (some classifier) e = not (classifier e)

-- The result of one attempt, and whether it is that of the timeout.
unfoldable pub attempt_once :
    {E T S : Type 0}
    → (String → E)
    → RetryPolicy
    → Timed E T S
    → (S → Result E T × S)
    → S
    → Result E T × (Bool × S)
attempt_once anyhow policy timed operation s = elim policy.timeout [
  | some limit ↦
      let (answer, after) = timed limit s in
      elim answer [
        | some (ok value) ↦ (ok value, (false, after))
        | some (err e) ↦ (err e, (false, after))
        | none ↦ (err (anyhow "Operation timed out"), (true, after))
      ]
  | none ↦ let (result, after) = operation s in (result, (false, after))
]

module _ {E T S : Type 0} (anyhow : String → E) (overflow_checks : Bool) where
  -- The rest of the loop, for the attempts that are left.
  unfoldable pub attempts_from :
      RetryPolicy → (S → Result E T × S) → ℕ → ℕ → Option E → S → Run E T S
  attempts_from policy operation zero attempt last s = record {
    outcome = last_or_unrecorded anyhow last;
    calls = 0;
    sleeps = [];
    state = s;
  }
  attempts_from policy operation (suc left) attempt last s =
      let (result, after) = operation s in
      elim result [
        | ok value ↦ stop (returned (ok value)) after
        | err e ↦
            let rest = attempts_from policy operation left (suc attempt) (some e) after in
            if leb policy.max_attempts attempt
            then stop (last_or_unrecorded anyhow (some e)) after
            else elim (delay_for_attempt overflow_checks policy attempt) [
              | some delay ↦ after_delay delay rest
              | none ↦ stop panicked after
            ]
      ]

  -- `RetryExecutor::execute`
  unfoldable pub execute : RetryPolicy → (S → Result E T × S) → S → Run E T S
  execute policy operation s = attempts_from policy operation (suc policy.max_attempts) 0 none s

  unfoldable pub async_attempts_from :
      RetryPolicy
      → Option (E → Bool)
      → (S → Result E T × (Bool × S))
      → ℕ
      → ℕ
      → Option E
      → S
      → Run E T S
  async_attempts_from policy classifier once zero attempt last s = record {
    outcome = last_or_unrecorded anyhow last;
    calls = 0;
    sleeps = [];
    state = s;
  }
  async_attempts_from policy classifier once (suc left) attempt last s =
      let (result, (timed_out, after)) = once s in
      elim result [
        | ok value ↦ stop (returned (ok value)) after
        | err e ↦
            let rest =
              async_attempts_from policy classifier once left (suc attempt) (some e) after in
            if timed_out && not policy.retry_on_timeout
            then stop (returned (err e)) after
            else if is_refused classifier e
            then stop (returned (err e)) after
            else if leb policy.max_attempts attempt
            then stop (last_or_unrecorded anyhow (some e)) after
            else elim (delay_for_attempt overflow_checks policy attempt) [
              | some delay ↦ after_delay delay rest
              | none ↦ stop panicked after
            ]
      ]

  -- `AsyncRetryExecutor::execute`
  unfoldable pub async_execute :
      RetryPolicy → Option (E → Bool) → Timed E T S → (S → Result E T × S) → S → Run E T S
  async_execute policy classifier timed operation s =
      async_attempts_from policy classifier (attempt_once anyhow policy timed operation)
        (suc policy.max_attempts) 0 none s
