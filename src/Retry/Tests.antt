-- ===== src/Retry/Tests.antt =====
-- A node that fails twice and then returns, and one that fails until the attempts are used up.
use trace_graph.Base.{
  ℕ, ◌*◌, if◌then◌else◌, none, codes, leb, [], ◌∷◌, Bool, true, false, some, ◌≡◌, refl, arith,
}
use trace_graph.Retry.{
  Throwable, exception, go_to, Reply, returned, completion_exception, success, failure, retry,
  sleep, RetryPolicy, invoke_with_retry,
}
use trace_graph.Retry.Kinds.{SubgraphReply, ended, completed, halted, subgraph, invoke_node}
use trace_graph.Retry.Kinds.Laws.{replies_of, invoke_node-invoke_with_retry}
use trace_graph.Retry.Laws.{Course, invoke_with_retry-Course}

-- Three attempts, ten more nanoseconds after each.
abbrev thrice : RetryPolicy
thrice = record { max_attempts = 3; backoff = λ k. k * 10; retry_on = λ t. true }

abbrev timeout : Throwable
timeout = exception (codes "TimeoutException")

abbrev third_time : ℕ → Reply ℕ
third_time k =
    if leb 3 k then returned (go_to (codes "charge") 7) else completion_exception (some timeout)

abbrev never : ℕ → Reply ℕ
never k = completion_exception (some timeout)

abbrev sleeps : ℕ → Bool
sleeps k = false

third_time-run : invoke_with_retry thrice third_time sleeps ≡ (
  success 7 3 (some (codes "charge")),
  retry 1 timeout ∷ sleep 10 ∷ retry 2 timeout ∷ sleep 20 ∷ [],
)
unfolding invoke_with_retry
third_time-run = refl

never-run :
    invoke_with_retry thrice never sleeps
    ≡ (failure (some timeout), retry 1 timeout ∷ sleep 10 ∷ retry 2 timeout ∷ sleep 20 ∷ [])
unfolding invoke_with_retry
never-run = refl

invoke_with_retry-Course_example :
    Course thrice third_time sleeps 1 (invoke_with_retry thrice third_time sleeps)
invoke_with_retry-Course_example = invoke_with_retry-Course thrice third_time sleeps (omega arith)

-- A subgraph that fails at first.
abbrev inner : ℕ → SubgraphReply ℕ
inner k = ended (if leb 2 k then completed else halted) k none

invoke_node-invoke_with_retry_example :
    invoke_node thrice sleeps (codes "audit") (subgraph inner)
    ≡ invoke_with_retry thrice (replies_of (codes "audit") (subgraph inner)) sleeps
invoke_node-invoke_with_retry_example =
    invoke_node-invoke_with_retry thrice sleeps (codes "audit") (subgraph inner)

inner-run : invoke_node thrice sleeps (codes "audit") (subgraph inner) ≡ (
  success 2 2 none,
  retry 1 (exception (codes "subgraph 'audit' ended with HALTED")) ∷ sleep 10 ∷ [],
)
unfolding invoke_node
inner-run = refl
