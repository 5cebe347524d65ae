-- ===== src/Site/Docs/Bodies/Integration.antt =====
-- `DOC_PAGES` of docs.jsx: the bodies of pages.
use trace_graph.Base.{codes, List, [], ◌∷◌, none, some}
use trace_graph.Site.Markup.{a_tag, class_name, href_attr, Node, txt, el}
use trace_graph.Site.Docs.Parts.{p, cb}

unfoldable pub otel_body : List Node
unfolding cb
otel_body = (cb none (codes "java") (codes ".listener(OtelNodeListener.usingGlobal())")) ∷ []

unfoldable pub replay_body : List Node
unfolding cb
replay_body =
    (cb none (codes "java") (
      codes
        "Replayer<OrderState> replay = Replayer.of(trace);\nReplayRunner<OrderState> runner = ReplayRunner.of(trace, fixedGraph);\nExecutionResult<OrderState> fork = runner.reRunFrom(2);\nTraceDiff<OrderState> d = TraceDiff.between(left, right);"))
    ∷ []

unfoldable pub spring_body : List Node
unfolding cb
spring_body =
    (cb (some (codes "application.yml")) (codes "yaml") (
      codes
        "tracegraph:\n  web:\n    enabled: true\n  memory:\n    jdbc:\n      enabled: true\n  llm:\n    provider: openai"))
    ∷ []

unfoldable pub llm_body : List Node
unfolding cb
llm_body =
    (cb none (codes "java") (
      codes
        "LlmClient client = OpenAiLlmClient.builder()\n    .apiKey(System.getenv(\"OPENAI_API_KEY\"))\n    .build();"))
    ∷ []

unfoldable pub rest_body : List Node
unfolding p
rest_body =
    (p (
      txt (codes "See the ")
      ∷ el a_tag
          (href_attr (codes "#/api")
            ∷ class_name (codes "text-accent-600 dark:text-accent-100 underline underline-offset-4")
            ∷ [])
          (txt (codes "API reference") ∷ [])
      ∷ txt (codes " for the full surface.")
      ∷ []))
    ∷ []
