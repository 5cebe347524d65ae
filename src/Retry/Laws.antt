-- ===== src/Retry/Laws.antt =====
-- What `invokeWithRetry` does, whatever the node replies.
use trace_graph.Base.{
  ℕ, zero, suc, ◌+◌, ◌≤◌, ◌<◌, leb, List, [], ◌∷◌, ◌++◌, length, Bool, true, false, Option, none,
  some, codes, ◌≡◌, refl, arith, Bool-cases, inl, inr,
}
use trace_graph.Retry.{
  Throwable, interrupted_exception, fatal, exception, NodeResult, Reply, returned, no_result,
  completion_exception, thrown, NodeOutcome, failure, Event, retry, sleep, interrupt, RetryPolicy,
  should_retry, outcome_of, cause_of, on_error, on_cause, on_reply, attempts, invoke_with_retry,
}

-- What an attempt throws, as the handlers see it.
unfoldable pub caught {ℓ} : {S : Type ℓ} → Reply S → Option Throwable
unfolding cause_of
caught (returned r) = none
caught no_result = some (exception (codes "NullPointerException"))
caught (completion_exception c) = some (cause_of c)
caught (thrown t) = some t

-- The retries after some errors, the first one at an attempt.
unfoldable pub retry_events : RetryPolicy → ℕ → List Throwable → List Event
retry_events p k [] = []
retry_events p k (t ∷ ts) = retry k t ∷ sleep (p.backoff k) ∷ retry_events p (suc k) ts

below_max :
    (p : RetryPolicy) (k : ℕ) (t : Throwable) → should_retry p k t ≡ true → k < p.max_attempts
unfolding should_retry
below_max p k t h = elim (Bool-cases (leb p.max_attempts k)) [
  | inl e ↦ absurd (ground (arith, h, e))
  | inr e ↦ ground (arith, e)
]

module _ {ℓ} {S : Type ℓ} (p : RetryPolicy) (node : ℕ → Reply S) (is_woken : ℕ → Bool) where
  -- The attempts from one on throw these errors, each is retried, and no sleep is interrupted.
  unfoldable pub AreRetried : ℕ → List Throwable → Type 0
  unfolding caught should_retry
  AreRetried k [] = Unit
  AreRetried k (t ∷ ts) =
      (caught (node k) ≡ some t)
      × (should_retry p k t ≡ true)
      × (is_woken k ≡ false)
      × AreRetried (suc k) ts

  -- The last attempt: it returns, its error is not retried, the flag of an interrupt is passed on,
  -- or the sleep before the next attempt is interrupted.
  pub data Ending (k : ℕ) : NodeOutcome S → List Event → Type ℓ where
    returns : (r : NodeResult S) → node k ≡ returned r → Ending k (outcome_of k r) []
    refused :
        (t : Throwable)
        → caught (node k) ≡ some t
        → should_retry p k t ≡ false
        → Ending k (failure (some t)) []
    passed_on :
        caught (node k) ≡ some interrupted_exception
        → Ending k (failure (some interrupted_exception)) (interrupt ∷ [])
    woken :
        (t : Throwable)
        → caught (node k) ≡ some t
        → should_retry p k t ≡ true
        → is_woken k ≡ true
        → Ending k
            (failure (some interrupted_exception))
            (retry k t ∷ sleep (p.backoff k) ∷ interrupt ∷ [])

  -- A run from an attempt on.
  pub record Course (k : ℕ) (run : NodeOutcome S × List Event) : Type ℓ where
    pub errors : List Throwable
    pub last_events : List Event
    pub are_retried : AreRetried k errors
    pub ending : Ending (k + length errors) run.0 last_events
    pub events : run.1 ≡ retry_events p k errors ++ last_events
    pub bound : k + length errors ≤ p.max_attempts

  at_once :
      (k : ℕ) (o : NodeOutcome S) (es : List Event)
      → k ≤ p.max_attempts
      → Ending k o es
      → Course k (o, es)
  unfolding retry_events AreRetried
  at_once k o es h e = record {
    errors = [];
    last_events = es;
    are_retried = tt;
    ending = rw (native_zero k) e;
    events = refl;
    bound = omega (arith, h);
  }
    where
      native_zero : (k : ℕ) → k + 0 ≡ k
      native_zero k = omega arith

  retried :
      (k : ℕ) (t : Throwable) (run : NodeOutcome S × List Event)
      → caught (node k) ≡ some t
      → should_retry p k t ≡ true
      → is_woken k ≡ false
      → Course (suc k) run
      → Course k (run.0, retry k t ∷ sleep (p.backoff k) ∷ run.1)
  unfolding retry_events AreRetried
  retried k t run c s w rest = record {
    errors = t ∷ rest.errors;
    last_events = rest.last_events;
    are_retried = (c, s, w, rest.are_retried);
    ending = rw (shift k (length rest.errors)) rest.ending;
    events = rw (rest.events) refl;
    bound = omega (arith, rest.bound);
  }
    where
      shift : (k n : ℕ) → k + suc n ≡ suc k + n
      shift k n = omega arith

  on_error-Course :
      (k : ℕ) (t : Throwable) (rest : NodeOutcome S × List Event)
      → k ≤ p.max_attempts
      → caught (node k) ≡ some t
      → (k < p.max_attempts → Course (suc k) rest)
      → Course k (on_error p node is_woken k t rest)
  unfolding on_error
  on_error-Course k t rest h c next = elim (Bool-cases (should_retry p k t)) [
    | inr s ↦ rw s (at_once k (failure (some t)) [] h (refused t c s))
    | inl s ↦ elim (Bool-cases (is_woken k)) [
      | inl w ↦
          rw (s, w)
            (at_once k (failure (some interrupted_exception))
              (retry k t ∷ sleep (p.backoff k) ∷ interrupt ∷ []) h (woken t c s w))
      | inr w ↦ rw (s, w) (retried k t rest c s w (next (below_max p k t s)))
    ]
  ]

  on_cause-Course :
      (k : ℕ) (t : Throwable) (rest : NodeOutcome S × List Event)
      → k ≤ p.max_attempts
      → caught (node k) ≡ some t
      → (k < p.max_attempts → Course (suc k) rest)
      → Course k (on_cause p node is_woken k t rest)
  unfolding on_cause
  on_cause-Course k interrupted_exception rest h c next =
      at_once k (failure (some interrupted_exception)) (interrupt ∷ []) h (passed_on c)
  on_cause-Course k (fatal text) rest h c next = on_error-Course k (fatal text) rest h c next
  on_cause-Course k (exception text) rest h c next =
      on_error-Course k (exception text) rest h c next

  on_reply-Course :
      (k : ℕ) (r : Reply S) (rest : Throwable → NodeOutcome S × List Event)
      → node k ≡ r
      → k ≤ p.max_attempts
      → ((t : Throwable) → k < p.max_attempts → Course (suc k) (rest t))
      → Course k (on_reply p node is_woken k r rest)
  unfolding on_reply caught
  on_reply-Course k (returned r) rest e h next = at_once k (outcome_of k r) [] h (returns r e)
  on_reply-Course k no_result rest e h next =
      on_error-Course k (exception (codes "NullPointerException"))
        (rest (exception (codes "NullPointerException"))) h (rw e refl)
        (next (exception (codes "NullPointerException")))
  on_reply-Course k (completion_exception c) rest e h next =
      on_cause-Course k (cause_of c) (rest (cause_of c)) h (rw e refl) (next (cause_of c))
  on_reply-Course k (thrown t) rest e h next = on_error-Course k t (rest t) h (rw e refl) (next t)

  attempts-Course :
      (left k : ℕ) (last : Option Throwable)
      → k + left ≡ p.max_attempts
      → Course k (attempts p node is_woken (suc left) k last)
  unfolding attempts
  attempts-Course zero k last h =
      on_reply-Course k (node k) (λ t. (failure (some t), [])) refl (omega (arith, h))
        (λ t less. absurd (omega (arith, h, less)))
  attempts-Course (suc left) k last h =
      on_reply-Course k (node k) (λ t. attempts p node is_woken (suc left) (suc k) (some t)) refl
        (omega (arith, h)) (λ t less. attempts-Course left (suc k) (some t) (omega (arith, h)))

  -- With the one attempt at least that a policy allows, a run is some retried errors and an ending,
  -- at most as many attempts as the policy allows: the failure behind the loop is never reached.
  pub invoke_with_retry-Course : 1 ≤ p.max_attempts → Course 1 (invoke_with_retry p node is_woken)
  unfolding invoke_with_retry
  invoke_with_retry-Course h = from_first p.max_attempts refl h
    where
      from_first :
          (m : ℕ) → m ≡ p.max_attempts → 1 ≤ m → Course 1 (attempts p node is_woken m 1 none)
      from_first zero e h = absurd (omega (arith, h))
      from_first (suc m) e h = attempts-Course m 1 none (omega (arith, e))
