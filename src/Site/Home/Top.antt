-- ===== src/Site/Home/Top.antt =====
-- `Hero`, `KeyStats` and `CtaSection` of home.jsx.
use trace_graph.Base.{Text, codes, decimal, List, [], ◌∷◌, true, none, some}
use trace_graph.Site.Markup.{
  br_tag, div_tag, h1_tag, h2_tag, p_tag, section_tag, span_tag, class_name, Node, txt, keyed, el,
  map_index,
}
use trace_graph.Site.Primitives.Elements.{status_dot, code, section_label, button}
use trace_graph.Site.Home.Viz.{hero_viz}

-- `Hero `.
unfoldable pub hero : Node
unfolding status_dot button hero_viz
hero = el section_tag (class_name (codes "hero-gradient relative overflow-hidden") ∷ []) (
    el div_tag
      (class_name
          (codes "max-w-[1320px] mx-auto px-6 lg:px-8 pt-20 pb-24 lg:pt-28 lg:pb-32 text-center")
        ∷ [])
      (el div_tag
          (class_name (
              codes
                "inline-flex items-center gap-2 mono text-[11px] uppercase tracking-[0.14em] text-ink-600 dark:text-ink-400 mb-8")
            ∷ [])
          (status_dot (codes "ok") true ∷ txt (codes "JVM-native · v0.3.0 · Apache-2.0") ∷ [])
        ∷ el h1_tag
            (class_name (
                codes
                  "display text-[58px] sm:text-[78px] lg:text-[112px] text-ink-950 dark:text-white max-w-[1100px] mx-auto")
              ∷ [])
            (txt (codes "Agents that")
              ∷ el br_tag [] []
              ∷ el span_tag (class_name (codes "text-ink-400 dark:text-ink-500") ∷ [])
                  (txt (codes "survive production.") ∷ [])
              ∷ [])
        ∷ el p_tag
            (class_name (
                codes
                  "mt-8 text-[18px] lg:text-[20px] text-ink-600 dark:text-ink-400 max-w-2xl mx-auto leading-relaxed")
              ∷ [])
            (txt (
                codes
                  "TraceGraph is a typed execution-graph runtime for the JVM. Replay any run, fork from any step, diff two executions — all from plain Java records.")
              ∷ [])
        ∷ el div_tag
            (class_name (codes "mt-10 flex items-center justify-center gap-3 flex-wrap") ∷ [])
            (button (codes "primary") (codes "lg") none (some (codes "arrow-right")) (codes "a")
                (some (codes "#/docs")) none [] (txt (codes "Get started") ∷ [])
              ∷ button (codes "ghost") (codes "lg") none none (codes "a") (some (codes "#/trace"))
                  none [] (txt (codes "Open trace explorer") ∷ [])
              ∷ [])
        ∷ el div_tag
            (class_name (
                codes
                  "mt-12 mono text-[12px] text-ink-500 dark:text-ink-500 flex items-center justify-center gap-2")
              ∷ [])
            (el span_tag (class_name (codes "opacity-60") ∷ []) (txt (codes "$") ∷ [])
              ∷ el span_tag [] (
                  txt (codes "mvn dependency:get -Dartifact=site.tracegraph:tracegraph-core:0.3.0")
                  ∷ [])
              ∷ [])
        ∷ [])
    ∷ el div_tag (class_name (codes "max-w-[1320px] mx-auto px-6 lg:px-8 pb-20") ∷ [])
        (hero_viz ∷ [])
    ∷ [])

-- The statistics: label, number and note.
unfoldable pub stats : List (Text × Text × Text)
stats =
    (
      codes "Virtual threads",
      codes "1·per node",
      codes "Default executor: virtual-thread-per-task. Lazy, scoped to the run.",
    )
    ∷ (
      codes "Retry policies",
      codes "fixed · exp",
      codes "Per-node or graph-wide. Idempotency keys exposed via ctx.",
    )
    ∷ (
      codes "Replay fidelity",
      codes "step·level",
      codes "Re-execute from any saved step. Forks track lineage automatically.",
    )
    ∷ (
      codes "Heavy core deps",
      codes "zero",
      codes "SLF4J only. No Spring, no Jackson, no OpenTelemetry in core.",
    )
    ∷ []

-- `KeyStats`.
unfoldable pub key_stats : Node
unfolding stats
key_stats = el section_tag (class_name (codes "border-t hairline") ∷ []) (
    el div_tag
      (class_name (
          codes
            "max-w-[1320px] mx-auto px-6 lg:px-8 py-20 grid md:grid-cols-4 gap-px bg-ink-100 dark:bg-ink-900 rounded-2xl overflow-hidden")
        ∷ [])
      (map_index
        (λ i row. keyed (decimal i) (
          el div_tag (class_name (codes "bg-white dark:bg-ink-950 p-7") ∷ []) (
            el div_tag
              (class_name (codes "mono text-[11px] uppercase tracking-wider text-ink-500") ∷ [])
              (txt row.0 ∷ [])
            ∷ el div_tag
                (class_name (codes "display-tight text-[36px] mt-3 text-ink-950 dark:text-white")
                  ∷ [])
                (txt row.1 ∷ [])
            ∷ el p_tag
                (class_name
                    (codes "mt-3 text-[13.5px] text-ink-600 dark:text-ink-400 leading-relaxed")
                  ∷ [])
                (txt row.2 ∷ [])
            ∷ [])))
        0 stats)
    ∷ [])

-- `CtaSection`.
unfoldable pub cta_section : Node
unfolding code section_label button
cta_section =
    el section_tag (class_name (codes "border-t hairline bg-ink-50/60 dark:bg-ink-950/40") ∷ []) (
      el div_tag (class_name (codes "max-w-[1320px] mx-auto px-6 lg:px-8 py-28 text-center") ∷ []) (
        section_label (some (codes "05")) (codes "mb-6 inline-block") (txt (codes "Start") ∷ [])
        ∷ el h2_tag
            (class_name (
                codes
                  "display-tight text-[48px] lg:text-[68px] text-ink-950 dark:text-white max-w-3xl mx-auto text-balance")
              ∷ [])
            (txt (codes "Three commands and you have a graph that runs, retries, and replays.")
              ∷ [])
        ∷ el p_tag
            (class_name (codes "mt-6 text-[17px] text-ink-600 dark:text-ink-400 max-w-xl mx-auto")
              ∷ [])
            (txt (codes "No SaaS. No agent. No daemon. ")
              ∷ code [] (txt (codes "mvn install") ∷ [])
              ∷ txt (codes ", then write Java.")
              ∷ [])
        ∷ el div_tag
            (class_name (codes "mt-10 flex items-center justify-center gap-3 flex-wrap") ∷ [])
            (button (codes "primary") (codes "lg") none (some (codes "arrow-right")) (codes "a")
                (some (codes "#/docs")) none [] (txt (codes "Quickstart guide") ∷ [])
              ∷ button (codes "ghost") (codes "lg") none none (codes "a") (some (codes "#/studio"))
                  none [] (txt (codes "Try the graph studio") ∷ [])
              ∷ [])
        ∷ [])
      ∷ [])
