-- ===== src/Site/Home/Model.antt =====
-- `ModelSection` of home.jsx.
use trace_graph.Base.{Text, codes, List, [], ◌∷◌, some, map}
use trace_graph.Site.Markup.{
  br_tag, div_tag, h2_tag, h3_tag, li_tag, p_tag, section_tag, span_tag, ul_tag, class_name, Node,
  txt, keyed, el,
}
use trace_graph.Site.Primitives.Elements.{section_label, code_block}
use trace_graph.Site.Highlight.{highlight_java}

-- The code that is shown.
unfoldable pub model_code : Text
model_code =
    codes
      "// The shape of a real production graph.\nrecord OrderState(String id, boolean valid,\n                  boolean charged, boolean shipped) {}\n\nGraph<OrderState> graph = Graph.<OrderState>builder()\n    .node(\"validate\", (s, ctx) -> s.withValid(true))\n    .asyncNode(\"score\", (s, ctx) ->\n        CompletableFuture.supplyAsync(() -> score(s)))\n    .parallel(\"enrich\", List.of(\n            (s, ctx) -> withProfile(s),\n            (s, ctx) -> withFraudCheck(s),\n            (s, ctx) -> withInventory(s)),\n        (input, branches) -> merge(input, branches))\n    .node(\"charge\", chargeFn,\n        RetryPolicy.exponential(3, Duration.ofMillis(100),\n                                  2.0, Duration.ofSeconds(2)))\n    .node(\"ship\", shipFn)\n    .entry(\"validate\")\n    .edge(\"validate\", \"enrich\", OrderState::valid)\n    .edge(\"enrich\", \"score\")\n    .edge(\"score\", \"charge\")\n    .edge(\"charge\", \"ship\", OrderState::charged)\n    .terminal(\"ship\")\n    .traceRecorder(new RecordingTraceRecorder(store))\n    .listener(OtelNodeListener.usingGlobal())\n    .build();\n\nExecutionResult<OrderState> r = graph.run(seed);"

-- The points: a word and what it stands for.
unfoldable pub model_points : List (Text × Text)
model_points =
    (codes "node", codes "Pure function: (state, ctx) → state. Sync, async, or parallel branches.")
    ∷ (
      codes "edge",
      codes "First-class record. Predicate is a pure function of state — replay-safe.",
    )
    ∷ (
      codes "context",
      codes "Carries idempotency key, listener hooks, memory, executor. Never mutates state.",
    )
    ∷ (codes "result", codes "ExecutionResult<S> — id, finalState, path, status, error.")
    ∷ []

-- `ModelSection`.
unfoldable pub model_section : Node
unfolding section_label code_block model_points model_code highlight_java
model_section =
    el section_tag (class_name (codes "border-t hairline bg-ink-50/60 dark:bg-ink-950/40") ∷ []) (
      el div_tag (class_name (codes "max-w-[1320px] mx-auto px-6 lg:px-8 py-24") ∷ []) (
        el div_tag (class_name (codes "grid md:grid-cols-[280px_1fr] gap-12 mb-14") ∷ []) (
          section_label (some (codes "02")) [] (txt (codes "Model") ∷ [])
          ∷ el div_tag [] (
              el h2_tag
                (class_name (
                    codes
                      "display-tight text-[44px] lg:text-[56px] text-ink-950 dark:text-white text-balance")
                  ∷ [])
                (txt (codes "One entry node. Typed state.")
                  ∷ el br_tag [] []
                  ∷ txt (codes "No hidden control flow.")
                  ∷ [])
              ∷ [])
          ∷ [])
        ∷ el div_tag (class_name (codes "grid lg:grid-cols-[1fr_1.2fr] gap-12 items-start") ∷ []) (
            el div_tag [] (
              el h3_tag
                (class_name (
                    codes
                      "font-display text-[28px] text-ink-950 dark:text-white tracking-tight font-medium")
                  ∷ [])
                (txt (codes "What a graph actually does") ∷ [])
              ∷ el p_tag
                  (class_name
                      (codes "mt-4 text-[15px] text-ink-600 dark:text-ink-400 leading-relaxed")
                    ∷ [])
                  (txt (
                      codes
                        "A graph starts at a single named entry node, threads typed state through deterministic transitions, and stops at one of its terminals. There is no scheduler whispering instructions to your nodes.")
                    ∷ [])
              ∷ el p_tag
                  (class_name
                      (codes "mt-3 text-[15px] text-ink-600 dark:text-ink-400 leading-relaxed")
                    ∷ [])
                  (txt (
                      codes
                        "Every node returns a new state. Every edge predicate is a pure function of state. Every retry, every parallel fan-out, every checkpoint write happens at a known point in the loop.")
                    ∷ [])
              ∷ el ul_tag (class_name (codes "mt-8 space-y-0") ∷ []) (
                  map
                    (λ row. keyed row.0 (
                      el li_tag
                        (class_name (
                            codes
                              "grid grid-cols-[100px_1fr] gap-4 py-3 border-t hairline last:border-b text-[14.5px]")
                          ∷ [])
                        (el span_tag (class_name (codes "mono text-[12px] text-ink-500") ∷ [])
                            (txt row.0 ∷ [])
                          ∷ el span_tag (class_name (codes "text-ink-700 dark:text-ink-300") ∷ [])
                              (txt row.1 ∷ [])
                          ∷ [])))
                    model_points)
              ∷ [])
            ∷ code_block (some (codes "OrderPipeline.java")) (codes "java")
                (highlight_java model_code)
            ∷ [])
        ∷ [])
      ∷ [])
