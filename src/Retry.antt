-- ===== src/Retry.antt =====
-- `RetryPolicy` of tracegraph-core/src/main/java/io/tracegraph/core/RetryPolicy.java and
-- `invokeWithRetry` of tracegraph-core/src/main/java/io/tracegraph/core/exec/Executor.java. The
-- node, the sleeper and the policy's two functions are arguments; a delay is its nanoseconds.
pub mod Laws
pub mod Kinds
mod Tests
use trace_graph.Base.{
  ℕ, zero, suc, Text, codes, leb, if◌then◌else◌, List, [], ◌∷◌, Bool, true, false, Option, none,
  some,
}

-- What the code asks of a throwable; `fatal` is the class `Error` of Java. The text stands for the rest of it.
pub data Throwable : Type 0 where
  interrupted_exception : Throwable
  fatal : Text → Throwable
  exception : Text → Throwable

-- The sends of the last are the names of nodes with what they are to get.
pub data NodeResult {ℓ} (S : Type ℓ) : Type ℓ where
  continue : S → NodeResult S
  go_to : Text → S → NodeResult S
  send_all : List (Text × S) → (S → List S → S) → S → NodeResult S

-- What comes of `node.invokeRouting(state, ctx, exec).join()`: a result, a null, a
-- `CompletionException` with or without a cause, or another throwable.
pub data Reply {ℓ} (S : Type ℓ) : Type ℓ where
  returned : NodeResult S → Reply S
  no_result : Reply S
  completion_exception : Option Throwable → Reply S
  thrown : Throwable → Reply S

-- The cause of the failure is null if nothing was thrown.
pub data NodeOutcome {ℓ} (S : Type ℓ) : Type ℓ where
  success : S → ℕ → Option Text → NodeOutcome S
  send_all_result : S → ℕ → List (Text × S) → (S → List S → S) → NodeOutcome S
  failure : Option Throwable → NodeOutcome S

-- What the loop does besides: it tells the listener and the recorder of a retry, sleeps, and sets
-- the flag of its thread.
pub data Event : Type 0 where
  retry : ℕ → Throwable → Event
  sleep : ℕ → Event
  interrupt : Event

pub record RetryPolicy : Type 0 where
  pub max_attempts : ℕ
  pub backoff : ℕ → ℕ
  pub retry_on : Throwable → Bool

unfoldable pub tests : RetryPolicy → Throwable → Bool
tests p interrupted_exception = false
tests p (fatal text) = false
tests p (exception text) = p.retry_on (exception text)

unfoldable pub should_retry : RetryPolicy → ℕ → Throwable → Bool
unfolding tests
should_retry p attempt t = if leb p.max_attempts attempt then false else tests p t

unfoldable pub outcome_of {ℓ} : {S : Type ℓ} → ℕ → NodeResult S → NodeOutcome S
outcome_of attempt (continue s) = success s attempt none
outcome_of attempt (go_to name s) = success s attempt (some name)
outcome_of attempt (send_all sends merger s) = send_all_result s attempt sends merger

-- `ce.getCause() != null ? ce.getCause() : ce`
unfoldable pub cause_of : Option Throwable → Throwable
cause_of none = exception (codes "CompletionException")
cause_of (some t) = t

-- The loop, with the flag of each sleep: whether it is interrupted.
module _ {ℓ} {S : Type ℓ} (p : RetryPolicy) (node : ℕ → Reply S) (is_woken : ℕ → Bool) where
  -- The end of both handlers; `rest` are the attempts that follow.
  unfoldable pub on_error : ℕ → Throwable → NodeOutcome S × List Event → NodeOutcome S × List Event
  unfolding should_retry
  on_error attempt t rest =
      if should_retry p attempt t
      then (if is_woken attempt
          then (
            failure (some interrupted_exception),
            retry attempt t ∷ sleep (p.backoff attempt) ∷ interrupt ∷ [],
          )
          else (rest.0, retry attempt t ∷ sleep (p.backoff attempt) ∷ rest.1))
      else (failure (some t), [])

  unfoldable pub on_cause : ℕ → Throwable → NodeOutcome S × List Event → NodeOutcome S × List Event
  unfolding on_error
  on_cause attempt interrupted_exception rest =
      (failure (some interrupted_exception), interrupt ∷ [])
  on_cause attempt (fatal text) rest = on_error attempt (fatal text) rest
  on_cause attempt (exception text) rest = on_error attempt (exception text) rest

  -- The body of the loop.
  unfoldable pub on_reply :
      ℕ → Reply S → (Throwable → NodeOutcome S × List Event) → NodeOutcome S × List Event
  unfolding on_cause outcome_of cause_of
  on_reply attempt (returned r) rest = (outcome_of attempt r, [])
  on_reply attempt no_result rest =
      on_error attempt (exception (codes "NullPointerException"))
        (rest (exception (codes "NullPointerException")))
  on_reply attempt (completion_exception c) rest = on_cause attempt (cause_of c) (rest (cause_of c))
  on_reply attempt (thrown t) rest = on_error attempt t (rest t)

  -- The attempts that are left, from the one of a number on.
  unfoldable pub attempts : ℕ → ℕ → Option Throwable → NodeOutcome S × List Event
  unfolding on_reply
  attempts zero attempt last = (failure last, [])
  attempts (suc left) attempt last =
      on_reply attempt (node attempt) (λ t. attempts left (suc attempt) (some t))

  unfoldable pub invoke_with_retry : NodeOutcome S × List Event
  unfolding attempts
  invoke_with_retry = attempts p.max_attempts 1 none
