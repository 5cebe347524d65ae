-- ===== src/Site/Docs/Bodies/Runtime.antt =====
-- `DOC_PAGES` of docs.jsx: the bodies of pages.
use trace_graph.Base.{codes, List, [], ◌∷◌, none}
use trace_graph.Site.Markup.{strong_tag, Node, txt, el}
use trace_graph.Site.Primitives.Elements.{code}
use trace_graph.Site.Docs.Parts.{p, cb, callout}

unfoldable pub retries_body : List Node
unfolding cb
retries_body =
    (cb none (codes "java") (
      codes
        "RetryPolicy policy = RetryPolicy.exponential(\n    3, Duration.ofMillis(100), 2.0, Duration.ofSeconds(2));"))
    ∷ []

unfoldable pub checkpoints_body : List Node
unfolding code callout
checkpoints_body =
    (callout (
      el strong_tag [] (txt (codes "At-least-once on resume.") ∷ [])
      ∷ txt (codes " Use ")
      ∷ code [] (txt (codes "ctx.idempotencyKey()") ∷ [])
      ∷ txt (codes " to make side effects safe.")
      ∷ []))
    ∷ []

unfoldable pub memory_body : List Node
unfolding code p
memory_body =
    (p (
      txt (codes "Implementations: ")
      ∷ code [] (txt (codes "InMemoryMemoryStore") ∷ [])
      ∷ txt (codes ", ")
      ∷ code [] (txt (codes "FileMemoryStore") ∷ [])
      ∷ txt (codes ", ")
      ∷ code [] (txt (codes "JdbcMemoryStore") ∷ [])
      ∷ txt (codes ".")
      ∷ []))
    ∷ []

unfoldable pub interrupts_body : List Node
unfolding cb
interrupts_body =
    (cb none (codes "java")
      (codes ".interruptBefore(\"issueRefund\")\n.checkpointStore(jdbcStore)"))
    ∷ []
