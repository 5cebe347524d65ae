-- ===== src/Site/Home/Features.antt =====
-- `FeatureGrid` of home.jsx.
use trace_graph.Base.{suc, Text, codes, decimal, List, [], ◌∷◌, some}
use trace_graph.Site.Markup.{
  div_tag, em_tag, h2_tag, h3_tag, p_tag, section_tag, class_name, Node, txt, keyed, el, map_index,
}
use trace_graph.Site.Primitives.Elements.{icon, section_label}

-- A feature.
pub record Feature : Type 0 where
  pub icon : Text
  pub title : Text
  pub body : Text

unfoldable pub features : List Feature
features =
    record {
      icon = codes "box";
      title = codes "Typed graphs, plain Java";
      body =
          codes
            "Build graphs from records and lambdas. Compile-time safety; no DSL, no annotations, no reflection.";
    }
    ∷ record {
      icon = codes "history";
      title = codes "Replay any execution";
      body =
          codes
            "Plug in a TraceRecorder. Re-run a saved trace step by step against the same graph — or a modified one.";
    }
    ∷ record {
      icon = codes "refresh-cw";
      title = codes "Retries with backoff";
      body =
          codes
            "Fixed or exponential, per-node or graph-default. Errors short-circuit. onRetry fires on each attempt.";
    }
    ∷ record {
      icon = codes "database";
      title = codes "Checkpoints & resume";
      body =
          codes
            "Pluggable CheckpointStore writes after each node exit. Survive process boundaries; resume by id.";
    }
    ∷ record {
      icon = codes "activity";
      title = codes "OpenTelemetry, native";
      body =
          codes
            "One span per node, retries as span events, errors set StatusCode.ERROR. State diffs as events.";
    }
    ∷ record {
      icon = codes "package";
      title = codes "Spring Boot starter";
      body =
          codes
            "Auto-config for all four SPIs, REST inspector at /tracegraph/traces, SSE streaming.";
    }
    ∷ []

-- `FeatureGrid`.
unfoldable pub feature_grid : Node
unfolding icon section_label features
feature_grid = el section_tag (class_name (codes "border-t hairline") ∷ []) (
    el div_tag (class_name (codes "max-w-[1320px] mx-auto px-6 lg:px-8 py-24") ∷ []) (
      el div_tag (class_name (codes "grid md:grid-cols-[280px_1fr] gap-12 mb-16") ∷ []) (
        section_label (some (codes "01")) [] (txt (codes "Why") ∷ [])
        ∷ el div_tag [] (
            el h2_tag
              (class_name (
                  codes
                    "display-tight text-[44px] lg:text-[56px] text-ink-950 dark:text-white text-balance")
                ∷ [])
              (txt (codes "Six features that make production agents survivable.") ∷ [])
            ∷ el p_tag
                (class_name (codes "mt-5 text-[16px] text-ink-600 dark:text-ink-400 max-w-2xl")
                  ∷ [])
                (txt (
                    codes
                      "No hidden scheduler. No prompt-driven control flow. The graph definition ")
                  ∷ el em_tag [] (txt (codes "is") ∷ [])
                  ∷ txt (codes " the runtime, and every transition is observable.")
                  ∷ [])
            ∷ [])
        ∷ [])
      ∷ el div_tag
          (class_name (
              codes
                "grid md:grid-cols-3 gap-px bg-ink-100 dark:bg-ink-900 rounded-2xl overflow-hidden border hairline")
            ∷ [])
          (map_index
            (λ i f. keyed (decimal i) (
              el div_tag (class_name (codes "bg-white dark:bg-ink-950 p-8 min-h-[220px]") ∷ []) (
                el div_tag
                  (class_name (
                      codes
                        "w-9 h-9 rounded-lg bg-ink-100 dark:bg-ink-900 flex items-center justify-center text-ink-700 dark:text-ink-300 mb-5")
                    ∷ [])
                  (icon f.icon 18 [] ∷ [])
                ∷ el div_tag
                    (class_name (
                        codes
                          "mono text-[10px] tracking-widest text-ink-400 dark:text-ink-500 mb-2")
                      ∷ [])
                    (txt (codes "F·0") ∷ txt (decimal (suc i)) ∷ [])
                ∷ el h3_tag
                    (class_name (
                        codes
                          "text-[16px] font-semibold text-ink-950 dark:text-white tracking-tight")
                      ∷ [])
                    (txt f.title ∷ [])
                ∷ el p_tag
                    (class_name
                        (codes "mt-2 text-[14px] text-ink-600 dark:text-ink-400 leading-relaxed")
                      ∷ [])
                    (txt f.body ∷ [])
                ∷ [])))
            0 features)
      ∷ [])
    ∷ [])
