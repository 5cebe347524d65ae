-- ===== src/Retry/Kinds/Laws.antt =====
-- The three loops against one.
use trace_graph.Base.{
  ℕ, zero, suc, Text, codes, if◌then◌else◌, List, Bool, Option, none, some, ◌≡◌, refl, Bool-cases,
  inl, inr, ap, ◌∙◌, fun_ext,
}
use trace_graph.Retry.{
  Throwable, interrupted_exception, fatal, exception, continue, go_to, send_all, Reply, returned,
  no_result, completion_exception, thrown, on_error, on_cause, on_reply, attempts, NodeOutcome,
  Event, RetryPolicy, should_retry, invoke_with_retry,
}
use trace_graph.Retry.Kinds.{
  is_completed, SubgraphReply, ended, raised, SubgraphOutcome, RoutingReply, applied, applied_null,
  routing_raised, RoutingNodeOutcome, run_error, subgraph_error, subgraph_raised, subgraph_body,
  subgraph_attempts, routing_error, routing_handler, routing_body, routing_attempts, NodeKind,
  subgraph, routing, other_kind, of_subgraph, of_routing, invoke_node,
}

-- The reply of an asynchronous node that does what the inner graph does: the error of a run that
-- did not complete is thrown, and what a run throws completes it.
unfoldable pub subgraph_reply {ℓ} : {S : Type ℓ} → Text → SubgraphReply S → Reply S
unfolding is_completed run_error
subgraph_reply name (ended status state error) =
    if is_completed status then returned (continue state) else thrown (run_error name status error)
subgraph_reply name (raised t) = completion_exception (some t)

unfoldable pub routing_reply {ℓ} : {S : Type ℓ} → RoutingReply S → Reply S
routing_reply (applied r) = returned r
routing_reply applied_null = no_result
routing_reply (routing_raised t) = completion_exception (some t)

unfoldable pub replies_of {ℓ} : {S : Type ℓ} → Text → NodeKind S → ℕ → Reply S
unfolding subgraph_reply routing_reply
replies_of name (subgraph run) attempt = subgraph_reply name (run attempt)
replies_of name (routing apply) attempt = routing_reply (apply attempt)
replies_of name (other_kind node) attempt = node attempt

module _ {ℓ} {S : Type ℓ} (p : RetryPolicy) (is_woken : ℕ → Bool) (node : ℕ → Reply S) where
  abbrev subgraph_run : SubgraphOutcome S × List Event → NodeOutcome S × List Event
  subgraph_run r = (of_subgraph r.0, r.1)

  abbrev routing_run : RoutingNodeOutcome S × List Event → NodeOutcome S × List Event
  routing_run r = (of_routing r.0, r.1)

  subgraph_error-on_error :
      (k : ℕ) (t : Throwable) (rest : SubgraphOutcome S × List Event)
      → subgraph_run (subgraph_error p is_woken k t rest)
        ≡ on_error p node is_woken k t (subgraph_run rest)
  unfolding subgraph_error on_error of_subgraph
  subgraph_error-on_error k t rest = elim (Bool-cases (should_retry p k t)) [
    | inr s ↦ rw s refl
    | inl s ↦ elim (Bool-cases (is_woken k)) [ inl w ↦ rw (s, w) refl | inr w ↦ rw (s, w) refl ]
  ]

  routing_error-on_error :
      (k : ℕ) (t : Throwable) (rest : RoutingNodeOutcome S × List Event)
      → routing_run (routing_error p is_woken k t rest)
        ≡ on_error p node is_woken k t (routing_run rest)
  unfolding routing_error on_error of_routing
  routing_error-on_error k t rest = elim (Bool-cases (should_retry p k t)) [
    | inr s ↦ rw s refl
    | inl s ↦ elim (Bool-cases (is_woken k)) [ inl w ↦ rw (s, w) refl | inr w ↦ rw (s, w) refl ]
  ]

  subgraph_raised-on_cause :
      (k : ℕ) (t : Throwable) (rest : SubgraphOutcome S × List Event)
      → subgraph_run (subgraph_raised p is_woken k t rest)
        ≡ on_cause p node is_woken k t (subgraph_run rest)
  unfolding subgraph_raised on_cause of_subgraph
  subgraph_raised-on_cause k interrupted_exception rest = refl
  subgraph_raised-on_cause k (fatal text) rest = subgraph_error-on_error k (fatal text) rest
  subgraph_raised-on_cause k (exception text) rest = subgraph_error-on_error k (exception text) rest

  routing_handler-on_cause :
      (k : ℕ) (t : Throwable) (rest : RoutingNodeOutcome S × List Event)
      → routing_run (routing_handler p is_woken k t rest)
        ≡ on_cause p node is_woken k t (routing_run rest)
  unfolding routing_handler on_cause of_routing
  routing_handler-on_cause k interrupted_exception rest = refl
  routing_handler-on_cause k (fatal text) rest = routing_error-on_error k (fatal text) rest
  routing_handler-on_cause k (exception text) rest = routing_error-on_error k (exception text) rest

  subgraph_body-on_reply :
      (name : Text) (k : ℕ) (r : SubgraphReply S)
      (rest : Throwable → SubgraphOutcome S × List Event)
      → subgraph_run (subgraph_body p is_woken name k r rest)
        ≡ on_reply p node is_woken k (subgraph_reply name r) (λ t. subgraph_run (rest t))
  unfolding subgraph_body on_reply subgraph_reply of_subgraph
  subgraph_body-on_reply name k (ended status state error) rest =
      elim (Bool-cases (is_completed status)) [
        | inl c ↦ rw c refl
        | inr c ↦ rw c (
            subgraph_error-on_error k (run_error name status error)
              (rest (run_error name status error)))
      ]
  subgraph_body-on_reply name k (raised t) rest = subgraph_raised-on_cause k t (rest t)

  routing_body-on_reply :
      (k : ℕ) (r : RoutingReply S) (rest : Throwable → RoutingNodeOutcome S × List Event)
      → routing_run (routing_body p is_woken k r rest)
        ≡ on_reply p node is_woken k (routing_reply r) (λ t. routing_run (rest t))
  unfolding routing_body on_reply routing_reply of_routing
  routing_body-on_reply k (applied (continue s)) rest = refl
  routing_body-on_reply k (applied (go_to name s)) rest = refl
  routing_body-on_reply k (applied (send_all sends merger s)) rest = refl
  routing_body-on_reply k applied_null rest =
      routing_error-on_error k (exception (codes "NullPointerException"))
        (rest (exception (codes "NullPointerException")))
  routing_body-on_reply k (routing_raised t) rest = routing_handler-on_cause k t (rest t)

module _ {ℓ} {S : Type ℓ} (p : RetryPolicy) (is_woken : ℕ → Bool) (name : Text) where
  subgraph_attempts-attempts :
      (run : ℕ → SubgraphReply S) (left k : ℕ) (last : Option Throwable)
      → subgraph_run p is_woken
          (replies_of name (subgraph run))
          (subgraph_attempts p is_woken name run left k last)
        ≡ attempts p (replies_of name (subgraph run)) is_woken left k last
  unfolding subgraph_attempts attempts replies_of of_subgraph
  subgraph_attempts-attempts run zero k last = refl
  subgraph_attempts-attempts run (suc left) k last =
      subgraph_body-on_reply p is_woken (replies_of name (subgraph run)) name k (run k)
        (λ t. subgraph_attempts p is_woken name run left (suc k) (some t))
      ∙ ap
          (λ rest.
            on_reply p (replies_of name (subgraph run)) is_woken k (subgraph_reply name (run k))
              rest)
          (fun_ext (λ t. subgraph_attempts-attempts run left (suc k) (some t)))

  routing_attempts-attempts :
      (apply : ℕ → RoutingReply S) (left k : ℕ) (last : Option Throwable)
      → routing_run p is_woken
          (replies_of name (routing apply))
          (routing_attempts p is_woken apply left k last)
        ≡ attempts p (replies_of name (routing apply)) is_woken left k last
  unfolding routing_attempts attempts replies_of of_routing
  routing_attempts-attempts apply zero k last = refl
  routing_attempts-attempts apply (suc left) k last =
      routing_body-on_reply p is_woken (replies_of name (routing apply)) k (apply k)
        (λ t. routing_attempts p is_woken apply left (suc k) (some t))
      ∙ ap
          (λ rest.
            on_reply p (replies_of name (routing apply)) is_woken k (routing_reply (apply k)) rest)
          (fun_ext (λ t. routing_attempts-attempts apply left (suc k) (some t)))

  -- For each kind of node the outcome, the retries and the sleeps are those of the loop for the
  -- other nodes, on a node that throws the error of a run that did not complete and completes
  -- with the errors that the inner graph or the routing node throws.
  pub invoke_node-invoke_with_retry :
      (kind : NodeKind S)
      → invoke_node p is_woken name kind ≡ invoke_with_retry p (replies_of name kind) is_woken
  unfolding invoke_node invoke_with_retry replies_of
  invoke_node-invoke_with_retry (subgraph run) =
      subgraph_attempts-attempts run p.max_attempts 1 none
  invoke_node-invoke_with_retry (routing apply) =
      routing_attempts-attempts apply p.max_attempts 1 none
  invoke_node-invoke_with_retry (other_kind node) = refl
