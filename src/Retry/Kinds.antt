-- ===== src/Retry/Kinds.antt =====
-- The kinds of nodes in tracegraph-core/src/main/java/io/tracegraph/core/exec/Executor.java:
-- `invokeSubgraphWithRetry`, `invokeRoutingNodeWithRetry`, and the choice between the three loops in
-- the run of a graph.
pub mod Laws
use trace_graph.Base.{
  ℕ, zero, suc, Text, codes, if◌then◌else◌, List, [], ◌∷◌, ◌++◌, Bool, true, false, Option, none,
  some,
}
use trace_graph.Retry.{
  Throwable, interrupted_exception, fatal, exception, NodeResult, continue, go_to, send_all, Reply,
  NodeOutcome, success, send_all_result, failure, Event, retry, sleep, interrupt, RetryPolicy,
  should_retry, invoke_with_retry,
}

pub data Status : Type 0 where
  running : Status
  completed : Status
  failed : Status
  interrupted : Status
  halted : Status
  terminated : Status

unfoldable pub status_text : Status → Text
status_text running = codes "RUNNING"
status_text completed = codes "COMPLETED"
status_text failed = codes "FAILED"
status_text interrupted = codes "INTERRUPTED"
status_text halted = codes "HALTED"
status_text terminated = codes "TERMINATED"

unfoldable pub is_completed : Status → Bool
is_completed running = false
is_completed completed = true
is_completed failed = false
is_completed interrupted = false
is_completed halted = false
is_completed terminated = false

-- What comes of a run of the inner graph: its result, or what was thrown.
pub data SubgraphReply {ℓ} (S : Type ℓ) : Type ℓ where
  ended : Status → S → Option Throwable → SubgraphReply S
  raised : Throwable → SubgraphReply S

pub data SubgraphOutcome {ℓ} (S : Type ℓ) : Type ℓ where
  subgraph_success : S → ℕ → SubgraphOutcome S
  subgraph_failure : Option Throwable → SubgraphOutcome S

-- What comes of `routingNode.apply(state, ctx)`.
pub data RoutingReply {ℓ} (S : Type ℓ) : Type ℓ where
  applied : NodeResult S → RoutingReply S
  applied_null : RoutingReply S
  routing_raised : Throwable → RoutingReply S

pub data RoutingNodeOutcome {ℓ} (S : Type ℓ) : Type ℓ where
  routing_success : S → ℕ → Option Text → RoutingNodeOutcome S
  routing_sends : S → ℕ → List (Text × S) → (S → List S → S) → RoutingNodeOutcome S
  routing_failure : Option Throwable → RoutingNodeOutcome S

-- The cause of a run that did not complete.
unfoldable pub run_error : Text → Status → Option Throwable → Throwable
unfolding status_text codes
run_error name status none =
    exception (codes "subgraph '" ++ (name ++ (codes "' ended with " ++ status_text status)))
run_error name status (some t) = t

module _ {ℓ} {S : Type ℓ} (p : RetryPolicy) (is_woken : ℕ → Bool) where
  -- The end of the body of the loop of subgraphs, for an error that may be retried.
  unfoldable pub subgraph_error :
      ℕ → Throwable → SubgraphOutcome S × List Event → SubgraphOutcome S × List Event
  unfolding should_retry
  subgraph_error attempt t rest =
      if should_retry p attempt t
      then (if is_woken attempt
          then (
            subgraph_failure (some interrupted_exception),
            retry attempt t ∷ sleep (p.backoff attempt) ∷ interrupt ∷ [],
          )
          else (rest.0, retry attempt t ∷ sleep (p.backoff attempt) ∷ rest.1))
      else (subgraph_failure (some t), [])

  unfoldable pub subgraph_raised :
      ℕ → Throwable → SubgraphOutcome S × List Event → SubgraphOutcome S × List Event
  unfolding subgraph_error
  subgraph_raised attempt interrupted_exception rest =
      (subgraph_failure (some interrupted_exception), interrupt ∷ [])
  subgraph_raised attempt (fatal text) rest = subgraph_error attempt (fatal text) rest
  subgraph_raised attempt (exception text) rest = subgraph_error attempt (exception text) rest

  unfoldable pub subgraph_body :
      Text
      → ℕ
      → SubgraphReply S
      → (Throwable → SubgraphOutcome S × List Event)
      → SubgraphOutcome S × List Event
  unfolding subgraph_raised is_completed run_error
  subgraph_body name attempt (ended status state error) rest =
      if is_completed status
      then (subgraph_success state attempt, [])
      else subgraph_error attempt (run_error name status error) (rest (run_error name status error))
  subgraph_body name attempt (raised t) rest = subgraph_raised attempt t (rest t)

  unfoldable pub subgraph_attempts :
      Text → (ℕ → SubgraphReply S) → ℕ → ℕ → Option Throwable → SubgraphOutcome S × List Event
  unfolding subgraph_body
  subgraph_attempts name run zero attempt last = (subgraph_failure last, [])
  subgraph_attempts name run (suc left) attempt last =
      subgraph_body name attempt (run attempt)
        (λ t. subgraph_attempts name run left (suc attempt) (some t))

  -- The handler of the loop of routing nodes.
  unfoldable pub routing_error :
      ℕ → Throwable → RoutingNodeOutcome S × List Event → RoutingNodeOutcome S × List Event
  unfolding should_retry
  routing_error attempt t rest =
      if should_retry p attempt t
      then (if is_woken attempt
          then (
            routing_failure (some interrupted_exception),
            retry attempt t ∷ sleep (p.backoff attempt) ∷ interrupt ∷ [],
          )
          else (rest.0, retry attempt t ∷ sleep (p.backoff attempt) ∷ rest.1))
      else (routing_failure (some t), [])

  unfoldable pub routing_handler :
      ℕ → Throwable → RoutingNodeOutcome S × List Event → RoutingNodeOutcome S × List Event
  unfolding routing_error
  routing_handler attempt interrupted_exception rest =
      (routing_failure (some interrupted_exception), interrupt ∷ [])
  routing_handler attempt (fatal text) rest = routing_error attempt (fatal text) rest
  routing_handler attempt (exception text) rest = routing_error attempt (exception text) rest

  unfoldable pub routing_body :
      ℕ
      → RoutingReply S
      → (Throwable → RoutingNodeOutcome S × List Event)
      → RoutingNodeOutcome S × List Event
  unfolding routing_handler
  routing_body attempt (applied (continue s)) rest = (routing_success s attempt none, [])
  routing_body attempt (applied (go_to name s)) rest = (routing_success s attempt (some name), [])
  routing_body attempt (applied (send_all sends merger s)) rest =
      (routing_sends s attempt sends merger, [])
  routing_body attempt applied_null rest =
      routing_handler attempt (exception (codes "NullPointerException"))
        (rest (exception (codes "NullPointerException")))
  routing_body attempt (routing_raised t) rest = routing_handler attempt t (rest t)

  unfoldable pub routing_attempts :
      (ℕ → RoutingReply S) → ℕ → ℕ → Option Throwable → RoutingNodeOutcome S × List Event
  unfolding routing_body
  routing_attempts apply zero attempt last = (routing_failure last, [])
  routing_attempts apply (suc left) attempt last =
      routing_body attempt (apply attempt) (λ t. routing_attempts apply left (suc attempt) (some t))

-- A node by what comes of its attempts.
pub data NodeKind {ℓ} (S : Type ℓ) : Type ℓ where
  subgraph : (ℕ → SubgraphReply S) → NodeKind S
  routing : (ℕ → RoutingReply S) → NodeKind S
  other_kind : (ℕ → Reply S) → NodeKind S

unfoldable pub of_subgraph {ℓ} : {S : Type ℓ} → SubgraphOutcome S → NodeOutcome S
of_subgraph (subgraph_success s attempt) = success s attempt none
of_subgraph (subgraph_failure t) = failure t

unfoldable pub of_routing {ℓ} : {S : Type ℓ} → RoutingNodeOutcome S → NodeOutcome S
of_routing (routing_success s attempt target) = success s attempt target
of_routing (routing_sends s attempt sends merger) = send_all_result s attempt sends merger
of_routing (routing_failure t) = failure t

unfoldable pub invoke_node {ℓ} :
    {S : Type ℓ} → RetryPolicy → (ℕ → Bool) → Text → NodeKind S → NodeOutcome S × List Event
unfolding subgraph_attempts routing_attempts of_subgraph of_routing invoke_with_retry
invoke_node p is_woken name (subgraph run) =
    let (outcome, events) = subgraph_attempts p is_woken name run p.max_attempts 1 none in
    (of_subgraph outcome, events)
invoke_node p is_woken name (routing apply) =
    let (outcome, events) = routing_attempts p is_woken apply p.max_attempts 1 none in
    (of_routing outcome, events)
invoke_node p is_woken name (other_kind node) = invoke_with_retry p node is_woken
