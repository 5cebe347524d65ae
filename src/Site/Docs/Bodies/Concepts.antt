-- ===== src/Site/Docs/Bodies/Concepts.antt =====
-- `DOC_PAGES` of docs.jsx: the bodies of pages.
use trace_graph.Base.{codes, List, [], ◌∷◌, none}
use trace_graph.Site.Markup.{strong_tag, Node, txt, el}
use trace_graph.Site.Primitives.Elements.{code}
use trace_graph.Site.Docs.Parts.{h2, p, cb, callout, table}

unfoldable pub graphs_body : List Node
unfolding code h2 callout table
graphs_body =
    h2 none (txt (codes "The four node types") ∷ [])
    ∷ table (codes "Builder method" ∷ codes "Use when" ∷ []) (
        (codes "node" ∷ codes "Synchronous transitions. The 80% case." ∷ [])
        ∷ (codes "asyncNode" ∷ codes "Network calls, LLM completions." ∷ [])
        ∷ (codes "parallel" ∷ codes "Fan-out enrichment, multi-source fetches." ∷ [])
        ∷ (codes "routingNode" ∷ codes "Dynamic next-node selection or sendAll fan-out." ∷ [])
        ∷ [])
    ∷ callout (
        el strong_tag [] (txt (codes "Single type parameter.") ∷ [])
        ∷ txt (codes " Use state composition (sub-records inside ")
        ∷ code [] (txt (codes "S") ∷ [])
        ∷ txt (codes ") for sub-results. ")
        ∷ code [] (txt (codes "Node<S, R>") ∷ [])
        ∷ txt (codes " is intentionally not a thing.")
        ∷ [])
    ∷ []

unfoldable pub state_body : List Node
unfolding code p
state_body =
    (p (
      txt (codes "Prefer records. Nodes return the next state; they don't mutate. The ")
      ∷ code [] (txt (codes "ctx.idempotencyKey()") ∷ [])
      ∷ txt (codes " is the lever for at-least-once safety on resume.")
      ∷ []))
    ∷ []

unfoldable pub edges_body : List Node
unfolding cb
edges_body =
    (cb none (codes "java") (
      codes
        ".edge(\"score\", \"approve\", s -> s.risk() < 0.3)\n.edge(\"score\", \"review\",  s -> s.risk() < 0.7)\n.edge(\"score\", \"reject\")  // no predicate = fallthrough"))
    ∷ []

unfoldable pub parallel_body : List Node
unfolding p
parallel_body =
    (p (
      txt (
        codes
          "Branches receive the same input state and merge in declaration order. First-by-declaration-order failure wins. Parallel collapses to a single trace step.")
      ∷ []))
    ∷ []
