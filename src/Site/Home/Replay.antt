-- ===== src/Site/Home/Replay.antt =====
-- `ReplaySection` of home.jsx.
use trace_graph.Base.{Text, codes, List, [], ◌∷◌, none, some, map}
use trace_graph.Site.Markup.{
  div_tag, h2_tag, h3_tag, li_tag, p_tag, pre_tag, section_tag, span_tag, ul_tag, class_name,
  inner_html, Node, txt, keyed, el,
}
use trace_graph.Site.Primitives.Elements.{code, section_label, button}
use trace_graph.Site.Highlight.{highlight_java}

-- The code that is shown.
unfoldable pub replay_code : Text
replay_code =
    codes
      "// Load a saved trace and walk it.\nExecutionTrace<OrderState> trace = (ExecutionTrace<OrderState>)\n    store.load(executionId).orElseThrow();\n\nReplayer<OrderState> replay = Replayer.of(trace);\nfor (int i = 0; i < replay.stepCount(); i++) {\n    TraceStep<OrderState> step = replay.stepAt(i);\n    // step.before(), step.after(), step.attempts(), step.usage()\n}\n\n// Fork: re-run from step 1 against a modified graph.\nReplayRunner<OrderState> runner = ReplayRunner.of(trace, fixedGraph);\nExecutionResult<OrderState> fork = runner.reRunFrom(1);\n\n// Compare two runs.\nTraceDiff<OrderState> d = TraceDiff.between(trace, fork);\nif (!d.identical()) {\n    System.out.println(\"diverged at \" + d.divergenceIndex());\n}"

-- The points: a word and what it stands for.
unfoldable pub replay_points : List (Text × Text)
replay_points =
    (codes "store", codes "In-memory · JSON file · JDBC. All ship in observability.")
    ∷ (codes "resume", codes "One trace per executionId; resume appends to the prior trace.")
    ∷ (codes "parallel", codes "Branches collapse to a single step (Phase 2c contract).")
    ∷ (codes "retries", codes "Don't add steps; attempts tracks the count.")
    ∷ []

-- `ReplaySection`.
unfoldable pub replay_section : Node
unfolding code section_label button replay_points replay_code highlight_java
replay_section =
    el section_tag (class_name (codes "border-t border-white/5 bg-ink-950 text-white") ∷ []) (
      el div_tag (class_name (codes "max-w-[1320px] mx-auto px-6 lg:px-8 py-24") ∷ []) (
        el div_tag (class_name (codes "grid md:grid-cols-[280px_1fr] gap-12 mb-14") ∷ []) (
          section_label (some (codes "03")) (codes "text-ink-400") (txt (codes "Replay") ∷ [])
          ∷ el div_tag [] (
              el h2_tag
                (class_name (codes "display-tight text-[44px] lg:text-[56px] text-balance") ∷ [])
                (txt (codes "The killer feature: re-run any agent execution, with full state diff.")
                  ∷ [])
              ∷ el p_tag (class_name (codes "mt-5 text-[16px] text-ink-400 max-w-2xl") ∷ []) (
                  txt (codes "Plug in a ")
                  ∷ code (codes "bg-white/10 text-white") (txt (codes "TraceRecorder") ∷ [])
                  ∷ txt (
                      codes
                        " once. Every run becomes a deterministic replay artifact you can fork against a modified graph to test fixes.")
                  ∷ [])
              ∷ [])
          ∷ [])
        ∷ el div_tag (class_name (codes "grid lg:grid-cols-[1.2fr_1fr] gap-12 items-start") ∷ []) (
            el div_tag
              (class_name (codes "rounded-2xl border border-white/10 overflow-hidden bg-black")
                ∷ [])
              (el div_tag
                  (class_name (
                      codes
                        "flex items-center justify-between px-4 py-2.5 border-b border-white/10")
                    ∷ [])
                  (el span_tag (class_name (codes "mono text-[11px] text-white/50") ∷ [])
                      (txt (codes "Replay.java") ∷ [])
                    ∷ el span_tag
                        (class_name
                            (codes "mono text-[10px] text-white/30 uppercase tracking-wider")
                          ∷ [])
                        (txt (codes "JAVA") ∷ [])
                    ∷ [])
                ∷ el pre_tag
                    (class_name (codes "code-block p-6 overflow-x-auto scroll-thin text-white/85")
                      ∷ inner_html (highlight_java replay_code)
                      ∷ [])
                    []
                ∷ [])
            ∷ el div_tag [] (
                el h3_tag (class_name (codes "text-[26px] font-medium tracking-tight") ∷ [])
                  (txt (codes "Lineage. Diffs. Forks.") ∷ [])
                ∷ el p_tag (class_name (codes "mt-3 text-[15px] text-ink-400 leading-relaxed") ∷ [])
                    (txt (
                        codes
                          "Every replay produces a fresh executionId, but carries forkedFromExecutionId and the step it branched from. Walk lineage like git history.")
                      ∷ [])
                ∷ el p_tag (class_name (codes "mt-3 text-[15px] text-ink-400 leading-relaxed") ∷ [])
                    (code (codes "bg-white/10 text-white")
                        (txt (codes "TraceDiff.between(a, b)") ∷ [])
                      ∷ txt (
                          codes
                            " gives you the longest common prefix, divergence index, and per-side remainders.")
                      ∷ [])
                ∷ el ul_tag (class_name (codes "mt-8 space-y-0") ∷ []) (
                    map
                      (λ row. keyed row.0 (
                        el li_tag
                          (class_name (
                              codes
                                "grid grid-cols-[100px_1fr] gap-4 py-3 border-t border-white/10 text-[14.5px]")
                            ∷ [])
                          (el span_tag (class_name (codes "mono text-[12px] text-ink-500") ∷ [])
                              (txt row.0 ∷ [])
                            ∷ el span_tag (class_name (codes "text-white/80") ∷ []) (txt row.1 ∷ [])
                            ∷ [])))
                      replay_points)
                ∷ el div_tag (class_name (codes "mt-8") ∷ []) (
                    button (codes "ghost") (codes "md") none (some (codes "arrow-right"))
                      (codes "a") (some (codes "#/trace")) none
                      (codes "!border-white/20 !text-white hover:!bg-white/10")
                      (txt (codes "Open the trace explorer") ∷ [])
                    ∷ [])
                ∷ [])
            ∷ [])
        ∷ [])
      ∷ [])
