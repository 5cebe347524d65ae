-- ===== src/Site/Labels/Data.antt =====
-- `CHANGELOG` and `API_GROUPS` of data.jsx.
use trace_graph.Base.{Text, codes, List, [], ◌∷◌, Option, none, some}

pub record Note : Type 0 where
  pub kind : Text
  pub text : Text

pub record Release : Type 0 where
  pub v : Text
  pub date : Text
  pub tag : Option Text
  pub notes : List Note

pub record ApiEndpoint : Type 0 where
  pub m : Text
  pub p : Text
  pub desc : Text
  pub returns : Text

pub record ApiGroup : Type 0 where
  pub group : Text
  pub endpoints : List ApiEndpoint

unfoldable pub changelog_data : List Release
changelog_data =
    record {
      v = codes "0.3.0";
      date = codes "2026-05-04";
      tag = some (codes "latest");
      notes =
          record {
            kind = codes "feat";
            text =
                codes
                  "Replay & diff: TraceRecorder, Replayer, ReplayRunner, TraceDiff. Fork from any step against a modified graph.";
          }
          ∷ record {
            kind = codes "feat";
            text = codes "JDBC checkpoint store with at-least-once resume semantics.";
          }
          ∷ record {
            kind = codes "feat";
            text = codes "Anthropic LLM connector (streaming + tool use).";
          }
          ∷ record {
            kind = codes "breaking";
            text =
                codes
                  "Node SPI: signature is now (S, NodeContext) → S. Sub-result generic R was removed; compose state instead.";
          }
          ∷ record {
            kind = codes "fix";
            text =
                codes "Parallel branches no longer leak threads when a sibling branch fails fast.";
          }
          ∷ [];
    }
    ∷ record {
      v = codes "0.2.1";
      date = codes "2026-04-09";
      tag = none;
      notes =
          record {
            kind = codes "fix";
            text =
                codes
                  "OtelNodeListener no longer holds a hard reference to GlobalOpenTelemetry on hot reload.";
          }
          ∷ record {
            kind = codes "improve";
            text =
                codes
                  "Builder validates entry/terminal reachability at build() time, not first run().";
          }
          ∷ record {
            kind = codes "improve";
            text = codes "Better error messages on unreachable terminals.";
          }
          ∷ [];
    }
    ∷ record {
      v = codes "0.2.0";
      date = codes "2026-03-22";
      tag = none;
      notes =
          record {
            kind = codes "feat";
            text = codes "Spring Boot starter with REST inspector and SSE trace stream.";
          }
          ∷ record {
            kind = codes "feat";
            text = codes "parallel(...) builder method with anonymous branches and merge function.";
          }
          ∷ record {
            kind = codes "breaking";
            text =
                codes
                  "Edge predicates are now Predicate<S> instead of BiPredicate<S, NodeContext>. Use ctx via state composition.";
          }
          ∷ [];
    }
    ∷ record {
      v = codes "0.1.0";
      date = codes "2026-02-14";
      tag = none;
      notes =
          record {
            kind = codes "feat";
            text =
                codes
                  "First public release. Graph<S>, sync nodes, edges, retries, in-memory checkpoint store.";
          }
          ∷ [];
    }
    ∷ []

unfoldable pub api_groups : List ApiGroup
api_groups =
    record {
      group = codes "Traces";
      endpoints =
          record {
            m = codes "GET";
            p = codes "/tracegraph/traces";
            desc = codes "List recent executions, paginated. Filter by graph or status.";
            returns = codes "Page<ExecutionSummary>";
          }
          ∷ record {
            m = codes "GET";
            p = codes "/tracegraph/traces/{executionId}";
            desc = codes "Fetch a full ExecutionTrace<S> document, including all steps.";
            returns = codes "ExecutionTrace<JsonNode>";
          }
          ∷ record {
            m = codes "GET";
            p = codes "/tracegraph/traces/{executionId}/steps/{i}";
            desc = codes "Fetch a single step and its before/after state.";
            returns = codes "TraceStep<JsonNode>";
          }
          ∷ record {
            m = codes "DELETE";
            p = codes "/tracegraph/traces/{executionId}";
            desc = codes "Delete a stored execution. Lineage links are preserved.";
            returns = codes "204 No Content";
          }
          ∷ [];
    }
    ∷ record {
      group = codes "Replay";
      endpoints =
          record {
            m = codes "POST";
            p = codes "/tracegraph/traces/{executionId}/replay";
            desc = codes "Re-run a saved trace step by step against the current graph.";
            returns = codes "ExecutionResult<JsonNode>";
          }
          ∷ record {
            m = codes "POST";
            p = codes "/tracegraph/traces/{executionId}/replay?step={n}";
            desc = codes "Fork: re-run from step n against the current graph.";
            returns = codes "ExecutionResult<JsonNode>";
          }
          ∷ record {
            m = codes "POST";
            p = codes "/tracegraph/traces/diff";
            desc = codes "Diff two executions; body is { left, right }.";
            returns = codes "TraceDiff<JsonNode>";
          }
          ∷ [];
    }
    ∷ record {
      group = codes "Stream";
      endpoints =
          record {
            m = codes "GET";
            p = codes "/tracegraph/stream";
            desc =
                codes
                  "SSE: live node enter/exit/retry/error events for every execution (requires a LiveTraceFeed wired via traceRecorder).";
            returns = codes "text/event-stream";
          }
          ∷ record {
            m = codes "GET";
            p = codes "/tracegraph/stream?execution={id}";
            desc = codes "SSE filtered to a single execution.";
            returns = codes "text/event-stream";
          }
          ∷ record {
            m = codes "POST";
            p = codes "/tracegraph/traces/stream";
            desc =
                codes
                  "Run-and-watch: starts a new execution with the posted initial state and streams its NodeEvents.";
            returns = codes "text/event-stream";
          }
          ∷ [];
    }
    ∷ record {
      group = codes "Graph definitions";
      endpoints =
          record {
            m = codes "GET";
            p = codes "/tracegraph/graphs";
            desc = codes "List registered graphs and their node/edge counts.";
            returns = codes "List<GraphDescriptor>";
          }
          ∷ record {
            m = codes "GET";
            p = codes "/tracegraph/graphs/{name}";
            desc = codes "Mermaid + JSON descriptor for a registered graph.";
            returns = codes "GraphDescriptor";
          }
          ∷ [];
    }
    ∷ []
