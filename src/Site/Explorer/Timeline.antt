-- ===== src/Site/Explorer/Timeline.antt =====
-- `TimelinePanel` of trace.jsx, for the active step. The texts of `(a / b) * 100` and of
-- `Math.max((a / b) * 100, 3)`, floating-point numbers, are arguments.
use trace_graph.Base.{
  ℕ, ◌+◌, ◌*◌, Text, codes, decimal, ◌==◌, List, [], ◌∷◌, ◌++◌, map, if◌then◌else◌,
}
use trace_graph.Site.Markup.{
  button_tag, div_tag, span_tag, set_active_idx, class_name, style_attr, on_click, attr, Node, txt,
  keyed, el,
}
use trace_graph.Site.Explorer.Data.{Step, steps}
use trace_graph.Site.Explorer.{timeline_bg}

unfoldable pub total : ℕ
total = 1100

-- The numbers of the twelve lines.
unfoldable pub ticks : List ℕ
ticks = 0 ∷ 1 ∷ 2 ∷ 3 ∷ 4 ∷ 5 ∷ 6 ∷ 7 ∷ 8 ∷ 9 ∷ 10 ∷ 11 ∷ []

-- `TimelinePanel`.
unfoldable pub timeline_panel :
    (percent wide_percent : ℕ → ℕ → Text) (active : ℕ) (step : Step) → Node
unfolding steps total ticks timeline_bg
timeline_panel percent wide_percent active step =
    el div_tag
      (class_name (codes "mt-3 rounded-xl border hairline bg-white dark:bg-ink-950 px-4 py-3.5")
        ∷ [])
      (el div_tag
          (class_name
              (codes "flex items-center justify-between mono text-[11px] text-ink-500 mb-2.5")
            ∷ [])
          (el span_tag [] (txt (codes "timeline · 1.04s · virtual-thread executor") ∷ [])
            ∷ el div_tag (class_name (codes "flex items-center gap-3") ∷ []) (
                el span_tag (class_name (codes "inline-flex items-center gap-1.5") ∷ []) (
                  el span_tag (class_name (codes "w-2.5 h-2.5 rounded-sm bg-accent-500/70") ∷ []) []
                  ∷ txt (codes "ok")
                  ∷ [])
                ∷ el span_tag (class_name (codes "inline-flex items-center gap-1.5") ∷ []) (
                    el span_tag (class_name (codes "w-2.5 h-2.5 rounded-sm bg-amber-300") ∷ []) []
                    ∷ txt (codes "parallel")
                    ∷ [])
                ∷ el span_tag (class_name (codes "inline-flex items-center gap-1.5") ∷ []) (
                    el span_tag (class_name (codes "w-2.5 h-2.5 rounded-sm bg-amber-500") ∷ []) []
                    ∷ txt (codes "retry")
                    ∷ [])
                ∷ el span_tag (class_name (codes "inline-flex items-center gap-1.5") ∷ []) (
                    el span_tag (class_name (codes "w-2.5 h-2.5 rounded-sm bg-rose-500") ∷ []) []
                    ∷ txt (codes "error")
                    ∷ [])
                ∷ [])
            ∷ [])
        ∷ el div_tag
            (class_name (codes "relative h-12 bg-ink-50 dark:bg-ink-900 rounded-lg overflow-hidden")
              ∷ [])
            (map
                (λ i. keyed (decimal i) (
                  el div_tag
                    (class_name (codes "absolute top-0 bottom-0 w-px bg-black/5 dark:bg-white/5")
                      ∷ style_attr ((codes "left", (percent i 11) ++ (codes "%")) ∷ [])
                      ∷ [])
                    []))
                ticks
              ++ (map
                    (λ s. keyed (decimal s.i) (
                      el button_tag
                        (on_click (set_active_idx s.i)
                          ∷ class_name (
                              (codes
                                "absolute top-2 h-8 rounded mono text-[10.5px] px-2 flex items-center overflow-hidden whitespace-nowrap ")
                              ++ ((timeline_bg s.status)
                                  ++ ((codes " ")
                                      ++ (if (active == s.i)
                                          then codes "ring-2 ring-ink-950 dark:ring-white"
                                          else []))))
                          ∷ style_attr (
                              (codes "left", (percent s.t0 total) ++ (codes "%"))
                              ∷ (codes "width", (wide_percent s.dur total) ++ (codes "%"))
                              ∷ [])
                          ∷ attr (codes "title")
                              (s.name ++ ((codes " · ") ++ ((decimal s.dur) ++ (codes "ms"))))
                          ∷ [])
                        (txt s.name ∷ [])))
                    steps
                  ++ (el div_tag
                        (class_name (
                            codes
                              "absolute top-0 bottom-0 w-0.5 bg-ink-950 dark:bg-white pointer-events-none")
                          ∷ style_attr (
                              (
                                codes "left",
                                (percent (2 * step.t0 + step.dur) (2 * total)) ++ (codes "%"),
                              )
                              ∷ [])
                          ∷ [])
                        []
                      ∷ [])))
        ∷ [])
