-- ===== src/Site/Docs/Data.antt =====
-- The sidebar of the documentation, `DOCS_TREE` of data.jsx, and the heads of its pages,
-- `DOC_PAGES` of docs.jsx.
use trace_graph.Site.Markup.{Node}
use trace_graph.Site.Docs.Bodies.{
  quickstart_body, install_body, firstgraph_body, graphs_body, state_body, edges_body,
  parallel_body, retries_body, checkpoints_body, memory_body, interrupts_body, otel_body,
  replay_body, spring_body, llm_body, rest_body,
}
use trace_graph.Base.{Text, codes, List, [], ◌∷◌}

pub record DocItem : Type 0 where
  pub id : Text
  pub label : Text

pub record DocSection : Type 0 where
  pub section : Text
  pub items : List DocItem

unfoldable pub docs_tree : List DocSection
docs_tree =
    record {
      section = codes "Getting started";
      items =
          record { id = codes "quickstart"; label = codes "Quickstart" }
          ∷ record { id = codes "install"; label = codes "Installation" }
          ∷ record { id = codes "firstgraph"; label = codes "Your first graph" }
          ∷ [];
    }
    ∷ record {
      section = codes "Concepts";
      items =
          record { id = codes "graphs"; label = codes "Graphs & nodes" }
          ∷ record { id = codes "state"; label = codes "State & context" }
          ∷ record { id = codes "edges"; label = codes "Edges & routing" }
          ∷ record { id = codes "parallel"; label = codes "Async & parallel" }
          ∷ [];
    }
    ∷ record {
      section = codes "Runtime";
      items =
          record { id = codes "retries"; label = codes "Retries" }
          ∷ record { id = codes "checkpoints"; label = codes "Checkpoints & resume" }
          ∷ record { id = codes "memory"; label = codes "Memory" }
          ∷ record { id = codes "interrupts"; label = codes "Interrupts & HITL" }
          ∷ [];
    }
    ∷ record {
      section = codes "Observability";
      items =
          record { id = codes "otel"; label = codes "OpenTelemetry" }
          ∷ record { id = codes "replay"; label = codes "Replay & diff" }
          ∷ [];
    }
    ∷ record {
      section = codes "Integration";
      items =
          record { id = codes "spring"; label = codes "Spring Boot starter" }
          ∷ record { id = codes "llm"; label = codes "LLM connectors" }
          ∷ record { id = codes "rest"; label = codes "REST API" }
          ∷ [];
    }
    ∷ []

-- A page of `DOC_PAGES`, with its key; its body is what `body()` returns.
pub record DocPage : Type 0 where
  pub key : Text
  pub crumb : Text
  pub title : Text
  pub lede : Text
  pub body : List Node

unfoldable pub quickstart_page : DocPage
quickstart_page = record {
  key = codes "quickstart";
  crumb = codes "GETTING STARTED / QUICKSTART";
  title = codes "Quickstart";
  lede =
      codes
        "Get a typed graph running on the JVM in under a minute. This walkthrough builds the smallest useful TraceGraph — one entry, one terminal — and layers on retries, tracing, and replay.";
  body = quickstart_body;
}

unfoldable pub install_page : DocPage
install_page = record {
  key = codes "install";
  crumb = codes "GETTING STARTED / INSTALLATION";
  title = codes "Installation";
  lede =
      codes
        "TraceGraph is published to Maven Central. Pick the smallest module set that matches your use case.";
  body = install_body;
}

unfoldable pub firstgraph_page : DocPage
firstgraph_page = record {
  key = codes "firstgraph";
  crumb = codes "GETTING STARTED / YOUR FIRST GRAPH";
  title = codes "Your first graph";
  lede =
      codes "A five-node order pipeline with retries, parallel enrichment, and an async LLM call.";
  body = firstgraph_body;
}

unfoldable pub graphs_page : DocPage
graphs_page = record {
  key = codes "graphs";
  crumb = codes "CONCEPTS / GRAPHS & NODES";
  title = codes "Graphs & nodes";
  lede = codes "Graph<S> is the main runtime abstraction. State type S threads through every node.";
  body = graphs_body;
}

unfoldable pub state_page : DocPage
state_page = record {
  key = codes "state";
  crumb = codes "CONCEPTS / STATE & CONTEXT";
  title = codes "State & context";
  lede =
      codes
        "State threads through your graph. Context is the per-execution toolkit handed to every node.";
  body = state_body;
}

unfoldable pub edges_page : DocPage
edges_page = record {
  key = codes "edges";
  crumb = codes "CONCEPTS / EDGES & ROUTING";
  title = codes "Edges & routing";
  lede = codes "Edges are first-class records. Predicates are pure functions of state.";
  body = edges_body;
}

unfoldable pub parallel_page : DocPage
parallel_page = record {
  key = codes "parallel";
  crumb = codes "CONCEPTS / ASYNC & PARALLEL";
  title = codes "Async & parallel";
  lede =
      codes
        "Default executor is virtual-thread-per-task. Branches inside parallel(...) are anonymous.";
  body = parallel_body;
}

unfoldable pub retries_page : DocPage
retries_page = record {
  key = codes "retries";
  crumb = codes "RUNTIME / RETRIES";
  title = codes "Retries";
  lede = codes "Retry policy is a graph-definition concern, not runtime config.";
  body = retries_body;
}

unfoldable pub checkpoints_page : DocPage
checkpoints_page = record {
  key = codes "checkpoints";
  crumb = codes "RUNTIME / CHECKPOINTS";
  title = codes "Checkpoints & resume";
  lede = codes "Checkpoints write after node exit, before edge resolution.";
  body = checkpoints_body;
}

unfoldable pub memory_page : DocPage
memory_page = record {
  key = codes "memory";
  crumb = codes "RUNTIME / MEMORY";
  title = codes "Memory";
  lede = codes "MemoryStore is a scoped key-value store for cross-execution data.";
  body = memory_body;
}

unfoldable pub interrupts_page : DocPage
interrupts_page = record {
  key = codes "interrupts";
  crumb = codes "RUNTIME / INTERRUPTS & HITL";
  title = codes "Interrupts & HITL";
  lede = codes "Pause executions for human-in-the-loop approvals.";
  body = interrupts_body;
}

unfoldable pub otel_page : DocPage
otel_page = record {
  key = codes "otel";
  crumb = codes "OBSERVABILITY / OPENTELEMETRY";
  title = codes "OpenTelemetry";
  lede = codes "One span per node. Retries are span events. Errors set StatusCode.ERROR.";
  body = otel_body;
}

unfoldable pub replay_page : DocPage
replay_page = record {
  key = codes "replay";
  crumb = codes "OBSERVABILITY / REPLAY & DIFF";
  title = codes "Replay & diff";
  lede =
      codes "Plug a TraceRecorder in once, and every run becomes a deterministic replay artifact.";
  body = replay_body;
}

unfoldable pub spring_page : DocPage
spring_page = record {
  key = codes "spring";
  crumb = codes "INTEGRATION / SPRING BOOT";
  title = codes "Spring Boot starter";
  lede = codes "Auto-config registers no-op beans for the four SPIs. Your beans always win.";
  body = spring_body;
}

unfoldable pub llm_page : DocPage
llm_page = record {
  key = codes "llm";
  crumb = codes "INTEGRATION / LLM CONNECTORS";
  title = codes "LLM connectors";
  lede = codes "Vendor-neutral LlmClient SPI. OpenAI and Anthropic adapters ship.";
  body = llm_body;
}

unfoldable pub rest_page : DocPage
rest_page = record {
  key = codes "rest";
  crumb = codes "INTEGRATION / REST API";
  title = codes "REST API";
  lede = codes "Endpoints exposed by the Spring Boot starter when tracegraph.web.enabled is true.";
  body = rest_body;
}

unfoldable pub doc_pages : List DocPage
unfolding quickstart_page install_page firstgraph_page graphs_page state_page edges_page
    parallel_page retries_page checkpoints_page memory_page interrupts_page otel_page replay_page
    spring_page llm_page rest_page
doc_pages =
    quickstart_page ∷ install_page ∷ firstgraph_page ∷ graphs_page ∷ state_page ∷ edges_page
    ∷ parallel_page ∷ retries_page ∷ checkpoints_page ∷ memory_page ∷ interrupts_page ∷ otel_page
    ∷ replay_page ∷ spring_page ∷ llm_page ∷ rest_page ∷ []
