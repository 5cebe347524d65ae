-- ===== src/Site/Explorer/GraphView.antt =====
-- `TraceGraphSvg` of trace.jsx: the drawing of the graph.
use trace_graph.Base.{
  ℕ, suc, ◌+◌, ◌*◌, Text, codes, text_eq, decimal, ◌==◌, List, [], ◌∷◌, ◌++◌, Option, none, some,
  map, find, ◌/◌, ◌%◌, if◌then◌else◌,
}
use trace_graph.Site.Markup.{
  defs_tag, g_tag, line_tag, marker_tag, path_tag, rect_tag, svg_tag, text_tag, Action,
  set_active_idx, do_nothing, class_name, style_attr, on_click, attr, Node, txt, keyed, el,
  when_text,
}
use trace_graph.Site.Explorer.Data.{Step, Place, Edge, steps, edges, node_layout}
use trace_graph.Site.Explorer.{step_for}
use trace_graph.Site.Explorer.Graph.{node_style, edge_stroke, edge_marker, or_grey}
use trace_graph.Site.Drawing.{half_text, quarter_text, difference_text}
use trace_graph.Spa.Steps.{◌>>=◌}

-- `layout[name]`; `none` is undefined, and a TypeError where its place is read.
unfoldable pub place_at : List Place → Text → Option Place
place_at layout name = find (λ p. text_eq p.name name) layout

-- A width in tenths as a number.
unfoldable pub tenths_text : ℕ → Text
tenths_text n = decimal (n / 10) ++ (if n % 10 == 0 then [] else codes "." ++ decimal (n % 10))

-- What a click on a node does, by the step that is found for it.
unfoldable pub set_step : Option Step → Action
set_step none = do_nothing
set_step (some s) = set_active_idx s.i

-- `s.sub ? ' · ' + s.sub : ''`
unfoldable pub sub_suffix : Text → Text
sub_suffix [] = []
sub_suffix (c ∷ sub) = codes " · " ++ (c ∷ sub)

-- An edge between two places.
unfoldable pub edge_view : (stroke : Text) (i : ℕ) (e : Edge) (a b : Place) → Node
unfolding edge_marker half_text quarter_text difference_text
edge_view stroke i e a b = keyed (decimal i) (
    el g_tag [] (
      el path_tag
        (attr (codes "d") (
            (codes "M ")
            ++ ((half_text (2 * a.x + a.w))
                ++ ((codes " ")
                    ++ ((decimal (a.y + a.h))
                        ++ ((codes " C ")
                            ++ ((half_text (2 * a.x + a.w))
                                ++ ((codes " ")
                                    ++ ((decimal (a.y + a.h + 30))
                                        ++ ((codes ", ")
                                            ++ ((half_text (2 * b.x + b.w))
                                                ++ ((codes " ")
                                                    ++ ((difference_text (4 * b.y) 120)
                                                        ++ ((codes ", ")
                                                            ++ ((half_text (2 * b.x + b.w))
                                                            ++ ((codes " ")
                                                            ++ (decimal b.y))))))))))))))))
          ∷ attr (codes "fill") (codes "none")
          ∷ attr (codes "stroke") stroke
          ∷ attr (codes "strokeWidth") (codes "1.6")
          ∷ attr (codes "markerEnd") ((codes "url(#") ++ ((edge_marker stroke) ++ (codes ")")))
          ∷ [])
        []
      ∷ when_text e.label (λ present.
        (el g_tag [] (
          el rect_tag
            (attr (codes "x") (difference_text (2 * a.x + a.w + (2 * b.x + b.w)) 128)
              ∷ attr (codes "y") (difference_text (2 * (a.y + a.h + b.y)) 40)
              ∷ attr (codes "width") (codes "64")
              ∷ attr (codes "height") (codes "20")
              ∷ attr (codes "rx") (codes "4")
              ∷ attr (codes "fill") (codes "white")
              ∷ attr (codes "stroke") stroke
              ∷ attr (codes "strokeOpacity") (codes "0.4")
              ∷ class_name (codes "dark:fill-ink-950")
              ∷ [])
            []
          ∷ el text_tag
              (attr (codes "x") (quarter_text (2 * a.x + a.w + (2 * b.x + b.w)))
                ∷ attr (codes "y") (half_text (a.y + a.h + b.y + 8))
                ∷ attr (codes "textAnchor") (codes "middle")
                ∷ class_name (codes "mono fill-ink-700 dark:fill-ink-300")
                ∷ attr (codes "fontSize") (codes "10")
                ∷ [])
              (txt present ∷ [])
          ∷ []))
        ∷ [])))

-- The edges in order; `none` is the TypeError on an end with no place.
unfoldable pub edge_nodes : List Place → List Step → ℕ → List Edge → Option (List Node)
unfolding edge_view place_at edge_stroke
edge_nodes layout ran i [] = some []
edge_nodes layout ran i (e ∷ es) = do
  a ← place_at layout e.from
  b ← place_at layout e.to
  rest ← edge_nodes layout ran (suc i) es
  some (edge_view (edge_stroke ran e) i e a b ∷ rest)

-- A node of the graph.
unfoldable pub graph_node_view : (active : ℕ) (n : Place) → Node
unfolding node_style steps half_text tenths_text or_grey sub_suffix set_step step_for
graph_node_view active n = keyed n.name (
    el g_tag
      (style_attr ((codes "cursor", codes "pointer") ∷ [])
        ∷ on_click (set_step (step_for steps n.name))
        ∷ [])
      (el rect_tag
          (attr (codes "x") (decimal n.x)
            ∷ attr (codes "y") (decimal n.y)
            ∷ attr (codes "width") (decimal n.w)
            ∷ attr (codes "height") (decimal n.h)
            ∷ attr (codes "rx") (codes "10")
            ∷ attr (codes "fill") ((node_style steps active n.name).fill)
            ∷ attr (codes "stroke") ((node_style steps active n.name).stroke)
            ∷ attr (codes "strokeWidth") (tenths_text (node_style steps active n.name).sw)
            ∷ class_name (
                if (text_eq ((node_style steps active n.name).fill) (codes "#fff"))
                then codes "dark:fill-ink-900"
                else [])
            ∷ [])
          []
        ∷ el text_tag
            (attr (codes "x") (half_text (2 * n.x + n.w))
              ∷ attr (codes "y") (decimal (n.y + 22))
              ∷ attr (codes "textAnchor") (codes "middle")
              ∷ class_name (codes "mono fill-ink-950 dark:fill-white")
              ∷ attr (codes "fontSize") (codes "13")
              ∷ attr (codes "fontWeight") (codes "500")
              ∷ [])
            (txt n.name ∷ [])
        ∷ el text_tag
            (attr (codes "x") (half_text (2 * n.x + n.w))
              ∷ attr (codes "y") (decimal (n.y + 39))
              ∷ attr (codes "textAnchor") (codes "middle")
              ∷ class_name (codes "mono")
              ∷ attr (codes "fontSize") (codes "10")
              ∷ attr (codes "fill") (or_grey (node_style steps active n.name).sub_color)
              ∷ [])
            (txt n.kind ∷ txt (sub_suffix (node_style steps active n.name).sub) ∷ [])
        ∷ []))

-- The drawing, by its edges and the places of the entry and of the terminal.
unfoldable pub graph_frame : (active : ℕ) (edge_list : List Node) (first last : Place) → Node
unfolding graph_node_view node_layout half_text difference_text
graph_frame active edge_list first last =
    el svg_tag
      (attr (codes "viewBox") (codes "0 0 760 580")
        ∷ attr (codes "preserveAspectRatio") (codes "xMidYMid meet")
        ∷ class_name (codes "w-full h-full text-ink-950 dark:text-white")
        ∷ [])
      (el defs_tag [] (
          el marker_tag
            (attr (codes "id") (codes "tg-arr-acc")
              ∷ attr (codes "viewBox") (codes "0 0 10 10")
              ∷ attr (codes "refX") (codes "9")
              ∷ attr (codes "refY") (codes "5")
              ∷ attr (codes "markerWidth") (codes "6")
              ∷ attr (codes "markerHeight") (codes "6")
              ∷ attr (codes "orient") (codes "auto")
              ∷ [])
            (el path_tag
                (attr (codes "d") (codes "M0,0 L10,5 L0,10 z")
                  ∷ attr (codes "fill") (codes "#0d8f63")
                  ∷ [])
                []
              ∷ [])
          ∷ el marker_tag
              (attr (codes "id") (codes "tg-arr-err")
                ∷ attr (codes "viewBox") (codes "0 0 10 10")
                ∷ attr (codes "refX") (codes "9")
                ∷ attr (codes "refY") (codes "5")
                ∷ attr (codes "markerWidth") (codes "6")
                ∷ attr (codes "markerHeight") (codes "6")
                ∷ attr (codes "orient") (codes "auto")
                ∷ [])
              (el path_tag
                  (attr (codes "d") (codes "M0,0 L10,5 L0,10 z")
                    ∷ attr (codes "fill") (codes "#e11d48")
                    ∷ [])
                  []
                ∷ [])
          ∷ [])
        ∷ el rect_tag
            (attr (codes "x") (decimal (first.x + 15))
              ∷ attr (codes "y") (codes "30")
              ∷ attr (codes "width") (difference_text (4 * first.w) 120)
              ∷ attr (codes "height") (codes "22")
              ∷ attr (codes "rx") (codes "4")
              ∷ attr (codes "fill") (codes "currentColor")
              ∷ [])
            []
        ∷ el text_tag
            (attr (codes "x") (half_text (2 * first.x + first.w))
              ∷ attr (codes "y") (codes "45")
              ∷ attr (codes "textAnchor") (codes "middle")
              ∷ attr (codes "fill") (codes "white")
              ∷ class_name (codes "mono")
              ∷ attr (codes "fontSize") (codes "10")
              ∷ [])
            (txt (codes "▼ entry") ∷ [])
        ∷ (edge_list
            ++ (map (graph_node_view active) node_layout
                ++ (el line_tag
                      (attr (codes "x1") (half_text (2 * last.x + last.w))
                        ∷ attr (codes "y1") (decimal (last.y + last.h))
                        ∷ attr (codes "x2") (half_text (2 * last.x + last.w))
                        ∷ attr (codes "y2") (decimal (last.y + last.h + 24))
                        ∷ attr (codes "stroke") (codes "currentColor")
                        ∷ attr (codes "strokeWidth") (codes "1.4")
                        ∷ [])
                      []
                    ∷ el rect_tag
                        (attr (codes "x") (decimal (last.x + 15))
                          ∷ attr (codes "y") (decimal (last.y + last.h + 24))
                          ∷ attr (codes "width") (difference_text (4 * last.w) 120)
                          ∷ attr (codes "height") (codes "22")
                          ∷ attr (codes "rx") (codes "4")
                          ∷ attr (codes "fill") (codes "currentColor")
                          ∷ [])
                        []
                    ∷ el text_tag
                        (attr (codes "x") (half_text (2 * last.x + last.w))
                          ∷ attr (codes "y") (decimal (last.y + last.h + 39))
                          ∷ attr (codes "textAnchor") (codes "middle")
                          ∷ attr (codes "fill") (codes "white")
                          ∷ class_name (codes "mono")
                          ∷ attr (codes "fontSize") (codes "10")
                          ∷ [])
                        (txt (codes "▲ terminal") ∷ [])
                    ∷ []))))

-- `TraceGraphSvg`.
unfoldable pub trace_graph_svg : ℕ → Option Node
unfolding graph_frame edge_nodes place_at node_layout edges steps
trace_graph_svg active = do
  edge_list ← edge_nodes node_layout steps 0 edges
  first ← place_at node_layout (codes "validate")
  last ← place_at node_layout (codes "ship")
  some (graph_frame active edge_list first last)
