-- ===== src/Site/Studio/Page.antt =====
-- `Studio` of studio.jsx, the page, for the selected name and what its two requests stored.
use trace_graph.Base.{
  Bool, Text, codes, text_eq, List, [], ◌∷◌, ◌++◌, true, false, Option, none, some, map,
  if◌then◌else◌,
}
use trace_graph.Site.Markup.{
  button_tag, div_tag, option_tag, select_tag, span_tag, Action, set_active_name, show_alert,
  do_nothing, class_name, on_click, Node, txt, keyed, el,
}
use trace_graph.Site.Primitives.Elements.{icon, badge, button}
use trace_graph.Value.{Js, null, truthy, opt_get}
use trace_graph.Site.Explorer.Page.{child}
use trace_graph.Site.Explorer.Panels.{panel}
use trace_graph.Site.Studio.Data.{StudioNode, studio_nodes}
use trace_graph.Site.Studio.{node_icon}
use trace_graph.Site.Studio.Canvas.{studio_graph_svg}
use trace_graph.Site.Studio.Panel.{props_panel}
use trace_graph.Spa.Steps.{◌>>=◌}

-- `t && setMermaid(t)`, from null on: what the request for the graph stores. `none` is an answer that
-- is not ok, or a failed request.
unfoldable pub stored_mermaid : Option Text → Option Text
stored_mermaid none = none
stored_mermaid (some []) = none
stored_mermaid (some (c ∷ t)) = some (c ∷ t)

-- `d && setComplexity(d)`, from null on.
unfoldable pub stored_complexity : Option Js → Js
stored_complexity none = null
stored_complexity (some d) = if truthy d then d else null

-- `mermaid && alert(mermaid)`
unfoldable pub mermaid_action : Option Text → Action
mermaid_action none = do_nothing
mermaid_action (some []) = do_nothing
mermaid_action (some (c ∷ t)) = show_alert (c ∷ t)

unfoldable pub counted_size : (node_count edge_count max_depth : List Node) → Node
counted_size node_count edge_count max_depth = el span_tag [] (
    node_count
    ++ (txt (codes " nodes · ") ∷ (edge_count ++ (txt (codes " edges · depth ") ∷ max_depth))))

-- What the bar shows for a size that is there; `none` is the error on a part that is an object.
unfoldable pub size_if : Bool → Js → Option Node
unfolding child counted_size
size_if true complexity = do
  node_count ← child (opt_get (codes "nodeCount") complexity)
  edge_count ← child (opt_get (codes "edgeCount") complexity)
  max_depth ← child (opt_get (codes "maxDepth") complexity)
  some (counted_size node_count edge_count max_depth)
size_if false complexity =
    some (el span_tag [] (txt (codes "5 nodes · 4 edges · 1 entry · 1 terminal") ∷ []))

-- `complexity ? … : …`
unfoldable pub graph_size : Js → Option Node
unfolding size_if
graph_size complexity = size_if (truthy complexity) complexity

-- The button of a node in the list.
unfoldable pub studio_button : (active : Text) (n : StudioNode) → Node
unfolding icon badge node_icon
studio_button active n = keyed n.name (
    el button_tag
      (on_click (set_active_name n.name)
        ∷ class_name (
            (codes
              "w-full text-left grid grid-cols-[20px_1fr_auto] gap-2 items-center px-3.5 py-2.5 border-l-2 transition-colors ")
            ++ (if (text_eq active n.name)
                then codes "bg-accent-50 dark:bg-accent-700/15 border-accent-500"
                else codes "border-transparent hover:bg-ink-50 dark:hover:bg-ink-900/60"))
        ∷ [])
      (icon (node_icon n.kind) 12 (codes "text-ink-500")
        ∷ el span_tag (class_name (codes "min-w-0") ∷ []) (
            el span_tag (class_name (codes "mono text-[12.5px] text-ink-950 dark:text-white") ∷ [])
              (txt n.name ∷ [])
            ∷ el span_tag (class_name (codes "flex items-center gap-1 mt-0.5") ∷ []) (
                (if n.entry then (badge (codes "dark") (txt (codes "entry") ∷ [])) ∷ [] else [])
                ++ ((if n.terminal
                      then (badge (codes "dark") (txt (codes "terminal") ∷ [])) ∷ []
                      else [])
                    ++ (badge (codes "neutral") (txt n.kind ∷ []) ∷ [])))
            ∷ [])
        ∷ el span_tag (class_name (codes "mono text-[10.5px] text-ink-500") ∷ []) (txt n.kind ∷ [])
        ∷ []))

-- The page, by its parts.
unfoldable pub studio_frame :
    (active : Text) (mermaid : Option Text) (size canvas props : Node) → Node
unfolding icon badge button panel mermaid_action studio_button studio_nodes
studio_frame active mermaid size canvas props =
    el div_tag (class_name (codes "max-w-[1500px] mx-auto px-4 lg:px-6 py-6 fade-up") ∷ []) (
      el div_tag
        (class_name (
            codes
              "rounded-xl border hairline bg-white dark:bg-ink-950 px-4 py-2.5 flex items-center gap-3 mono text-[12px] text-ink-700 dark:text-ink-300 flex-wrap")
          ∷ [])
        (icon (codes "workflow") 14 (codes "text-ink-500")
          ∷ el span_tag (class_name (codes "text-ink-950 dark:text-white") ∷ [])
              (txt (codes "graph · order-pipeline.java") ∷ [])
          ∷ el span_tag (class_name (codes "text-ink-300 dark:text-ink-700") ∷ [])
              (txt (codes "·") ∷ [])
          ∷ size
          ∷ el span_tag (class_name (codes "text-ink-300 dark:text-ink-700") ∷ [])
              (txt (codes "·") ∷ [])
          ∷ badge (codes "ok") (txt (codes "VALID") ∷ [])
          ∷ el div_tag (class_name (codes "flex-1") ∷ []) []
          ∷ el select_tag
              (class_name (
                  codes
                    "mono text-[12px] px-2.5 h-8 rounded-lg border hairline bg-ink-50 dark:bg-ink-900 text-ink-950 dark:text-white")
                ∷ [])
              (el option_tag [] (txt (codes "order-pipeline") ∷ [])
                ∷ el option_tag [] (txt (codes "rag-agent") ∷ [])
                ∷ el option_tag [] (txt (codes "react-agent") ∷ [])
                ∷ el option_tag [] (txt (codes "hitl-approval") ∷ [])
                ∷ [])
          ∷ button (codes "ghost") (codes "sm") (some (codes "file-code")) none (codes "button")
              none (some (mermaid_action mermaid)) [] (txt (codes "Mermaid") ∷ [])
          ∷ button (codes "ghost") (codes "sm") (some (codes "file-text")) none (codes "button")
              none none [] (txt (codes "PlantUML") ∷ [])
          ∷ button (codes "primary") (codes "sm") (some (codes "play")) none (codes "button") none
              none [] (txt (codes "Run") ∷ [])
          ∷ [])
      ∷ el div_tag
          (class_name (
              codes
                "mt-4 grid grid-cols-1 lg:grid-cols-[260px_1fr_320px] gap-3 h-[calc(100vh-200px)] min-h-[640px]")
            ∷ [])
          (panel (codes "Nodes") [] [] (
              el div_tag (class_name (codes "py-1.5") ∷ [])
                (map (studio_button active) studio_nodes)
              ∷ [])
            ∷ panel (codes "Canvas")
                (el button_tag
                    (class_name (
                        codes
                          "w-6 h-6 rounded inline-flex items-center justify-center text-ink-500 hover:bg-ink-100 dark:hover:bg-ink-900")
                      ∷ [])
                    (icon (codes "layout-grid") 12 [] ∷ [])
                  ∷ el button_tag
                      (class_name (
                          codes
                            "w-6 h-6 rounded inline-flex items-center justify-center text-ink-500 hover:bg-ink-100 dark:hover:bg-ink-900")
                        ∷ [])
                      (icon (codes "zoom-in") 12 [] ∷ [])
                  ∷ el button_tag
                      (class_name (
                          codes
                            "w-6 h-6 rounded inline-flex items-center justify-center text-ink-500 hover:bg-ink-100 dark:hover:bg-ink-900")
                        ∷ [])
                      (icon (codes "zoom-out") 12 [] ∷ [])
                  ∷ el button_tag
                      (class_name (
                          codes
                            "w-6 h-6 rounded inline-flex items-center justify-center text-ink-500 hover:bg-ink-100 dark:hover:bg-ink-900")
                        ∷ [])
                      (icon (codes "maximize-2") 12 [] ∷ [])
                  ∷ [])
                [] (el div_tag (class_name (codes "grid-bg h-full p-2") ∷ []) (canvas ∷ []) ∷ [])
            ∷ panel ((codes "node · ") ++ active) [] [] (props ∷ [])
            ∷ [])
      ∷ [])

-- `Studio`; `none` is an error of the render.
unfoldable pub studio_page : (mermaid : Option Text) (complexity : Js) (active : Text) → Option Node
unfolding graph_size studio_frame studio_graph_svg props_panel
studio_page mermaid complexity active = do
  size ← graph_size complexity
  canvas ← studio_graph_svg active
  props ← props_panel active
  some (studio_frame active mermaid size canvas props)
