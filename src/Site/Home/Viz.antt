-- ===== src/Site/Home/Viz.antt =====
-- `HeroViz` of home.jsx: the drawing of a run at the top of the home page.
pub mod Nodes
use trace_graph.Site.Home.Viz.Nodes.{VizNode, viz_nodes}
use trace_graph.Base.{
  ℕ, ◌+◌, ◌*◌, Text, codes, decimal, List, [], ◌∷◌, ◌++◌, Bool, true, false, Option, none, some,
  map, if◌then◌else◌,
}
use trace_graph.Site.Markup.{
  a_tag, defs_tag, div_tag, g_tag, marker_tag, path_tag, rect_tag, span_tag, svg_tag, text_tag,
  class_name, href_attr, attr, Node, txt, keyed, el, map_index, when_text,
}
use trace_graph.Site.Primitives.Elements.{icon, status_dot, section_label}
use trace_graph.Site.Explorer.Data.{steps}
use trace_graph.Site.Explorer.{pad_start}
use trace_graph.Site.Drawing.{half_text}

-- What the label's baseline adds to the top, in halves: `n.sub ? 22 : n.h/2 + 4`.
unfoldable pub label_offset : VizNode → ℕ
label_offset n = elim n.sub [ none ↦ n.h + 8 | some [] ↦ n.h + 8 | some (_ ∷ _) ↦ 44 ]

-- The drawing.
unfoldable pub hero_drawing : Node
unfolding viz_nodes half_text label_offset
hero_drawing =
    el svg_tag
      (attr (codes "viewBox") (codes "0 0 720 480")
        ∷ class_name (codes "w-full max-w-[680px]")
        ∷ [])
      (el defs_tag [] (
          el marker_tag
            (attr (codes "id") (codes "hv-arr")
              ∷ attr (codes "viewBox") (codes "0 0 10 10")
              ∷ attr (codes "refX") (codes "9")
              ∷ attr (codes "refY") (codes "5")
              ∷ attr (codes "markerWidth") (codes "6")
              ∷ attr (codes "markerHeight") (codes "6")
              ∷ attr (codes "orient") (codes "auto")
              ∷ [])
            (el path_tag
                (attr (codes "d") (codes "M0,0 L10,5 L0,10 z")
                  ∷ attr (codes "fill") (codes "currentColor")
                  ∷ [])
                []
              ∷ [])
          ∷ [])
        ∷ el g_tag
            (class_name (codes "text-ink-950 dark:text-white")
              ∷ attr (codes "stroke") (codes "currentColor")
              ∷ attr (codes "strokeWidth") (codes "1.5")
              ∷ attr (codes "fill") (codes "none")
              ∷ attr (codes "markerEnd") (codes "url(#hv-arr)")
              ∷ [])
            (el path_tag (attr (codes "d") (codes "M360 70 L360 130") ∷ []) []
              ∷ el path_tag (attr (codes "d") (codes "M360 180 L210 240") ∷ []) []
              ∷ el path_tag (attr (codes "d") (codes "M360 180 L510 240") ∷ []) []
              ∷ el path_tag (attr (codes "d") (codes "M210 290 L360 350") ∷ []) []
              ∷ el path_tag (attr (codes "d") (codes "M510 290 L360 350") ∷ []) []
              ∷ el path_tag (attr (codes "d") (codes "M360 400 L360 440") ∷ []) []
              ∷ [])
        ∷ map_index
            (λ i n. keyed (decimal i) (
              el g_tag [] (
                el rect_tag
                  (attr (codes "x") (decimal n.x)
                    ∷ attr (codes "y") (decimal n.y)
                    ∷ attr (codes "width") (decimal n.w)
                    ∷ attr (codes "height") (decimal n.h)
                    ∷ attr (codes "rx") (codes "8")
                    ∷ attr (codes "fill") (
                        if n.solid
                        then codes "currentColor"
                        else if n.accent
                        then codes "rgba(13,143,99,0.08)"
                        else codes "white")
                    ∷ attr (codes "stroke")
                        (if n.accent then codes "#0d8f63" else codes "currentColor")
                    ∷ attr (codes "strokeWidth") (if n.accent then codes "1.6" else codes "1.4")
                    ∷ class_name (
                        (codes "text-ink-950 dark:text-white ")
                        ++ ((if n.solid then [] else codes "dark:fill-ink-950")
                            ++ ((codes " ") ++ (if n.pulse then codes "pulse-dot" else []))))
                    ∷ [])
                  []
                ∷ el text_tag
                    (attr (codes "x") (half_text (2 * n.x + n.w))
                      ∷ attr (codes "y") (half_text (2 * n.y + label_offset n))
                      ∷ attr (codes "textAnchor") (codes "middle")
                      ∷ class_name (codes "mono fill-ink-950 dark:fill-white")
                      ∷ attr (codes "fill")
                          (if n.solid then codes "white" else codes "currentColor")
                      ∷ attr (codes "fontSize") (codes "12")
                      ∷ attr (codes "fontWeight") (codes "500")
                      ∷ [])
                    (txt n.label ∷ [])
                ∷ when_text n.sub (λ present.
                  (el text_tag
                    (attr (codes "x") (half_text (2 * n.x + n.w))
                      ∷ attr (codes "y") (decimal (n.y + 38))
                      ∷ attr (codes "textAnchor") (codes "middle")
                      ∷ class_name (codes "mono")
                      ∷ attr (codes "fill") (if n.accent then codes "#0d8f63" else codes "#6b7280")
                      ∷ attr (codes "fontSize") (codes "10")
                      ∷ [])
                    (txt present ∷ []))
                  ∷ []))))
            0 viz_nodes)

-- `HeroViz`.
unfoldable pub hero_viz : Node
unfolding icon status_dot section_label steps pad_start hero_drawing
hero_viz =
    el div_tag
      (class_name
          (codes "rounded-3xl border hairline bg-white dark:bg-ink-950 shadow-card overflow-hidden")
        ∷ [])
      (el div_tag
          (class_name (codes "flex items-center justify-between px-5 py-3 border-b hairline") ∷ [])
          (el div_tag (class_name (codes "flex items-center gap-2") ∷ []) (
              el span_tag
                (class_name (codes "w-2.5 h-2.5 rounded-full bg-ink-200 dark:bg-ink-800") ∷ []) []
              ∷ el span_tag
                  (class_name (codes "w-2.5 h-2.5 rounded-full bg-ink-200 dark:bg-ink-800") ∷ []) []
              ∷ el span_tag
                  (class_name (codes "w-2.5 h-2.5 rounded-full bg-ink-200 dark:bg-ink-800") ∷ []) []
              ∷ el span_tag (class_name (codes "mono text-[11px] text-ink-500 ml-3") ∷ [])
                  (txt (codes "order-pipeline · execution e9c4f1a2") ∷ [])
              ∷ [])
            ∷ el div_tag
                (class_name (
                    codes
                      "flex items-center gap-1.5 mono text-[11px] text-emerald-600 dark:text-emerald-400")
                  ∷ [])
                (status_dot (codes "ok") true ∷ txt (codes " running") ∷ [])
            ∷ [])
        ∷ el div_tag (class_name (codes "grid lg:grid-cols-[1fr_360px] min-h-[460px]") ∷ []) (
            el div_tag
              (class_name (codes "grid-bg p-8 flex items-center justify-center border-r hairline")
                ∷ [])
              (hero_drawing ∷ [])
            ∷ el div_tag (class_name (codes "p-6 space-y-5 bg-ink-50/40 dark:bg-ink-950/60") ∷ []) (
                el div_tag [] (
                  section_label none [] (txt (codes "State diff · charge") ∷ [])
                  ∷ el div_tag (class_name (codes "mt-3 mono text-[12px] space-y-1") ∷ []) (
                      el div_tag (class_name (codes "text-ink-500") ∷ [])
                        (txt (codes "  riskScore: 0.18") ∷ [])
                      ∷ el div_tag (class_name (codes "text-rose-600 dark:text-rose-400") ∷ [])
                          (txt (codes "- charged: false") ∷ [])
                      ∷ el div_tag
                          (class_name (codes "text-emerald-600 dark:text-emerald-400") ∷ [])
                          (txt (codes "+ charged: true") ∷ [])
                      ∷ el div_tag (class_name (codes "text-amber-600 dark:text-amber-400") ∷ [])
                          (txt (codes "  attempts: 2 (recovered)") ∷ [])
                      ∷ [])
                  ∷ [])
                ∷ el div_tag (class_name (codes "border-t hairline pt-4") ∷ []) (
                    section_label none [] (txt (codes "Trace · 5 steps") ∷ [])
                    ∷ el div_tag (class_name (codes "mt-3 space-y-1.5 mono text-[11.5px]") ∷ []) (
                        map
                          (λ s. keyed (decimal s.i) (
                            el div_tag
                              (class_name (
                                  codes
                                    "flex items-center justify-between text-ink-700 dark:text-ink-300")
                                ∷ [])
                              (el span_tag [] (
                                  txt (codes "#")
                                  ∷ txt (pad_start 2 s.i)
                                  ∷ txt (codes " ")
                                  ∷ txt s.name
                                  ∷ [])
                                ∷ el span_tag (class_name (codes "text-ink-500") ∷ [])
                                    (txt (decimal s.dur) ∷ txt (codes "ms") ∷ [])
                                ∷ [])))
                          steps)
                    ∷ [])
                ∷ el a_tag
                    (href_attr (codes "#/trace")
                      ∷ class_name (
                          codes
                            "arrow-link mono text-[12px] text-accent-600 dark:text-accent-100 inline-flex items-center gap-1.5 mt-2")
                      ∷ [])
                    (txt (codes "Open in trace explorer ")
                      ∷ el span_tag (class_name (codes "arrow") ∷ [])
                          (icon (codes "arrow-right") 12 [] ∷ [])
                      ∷ [])
                ∷ [])
            ∷ [])
        ∷ [])
