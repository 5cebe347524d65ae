-- ===== src/Site/Studio/Canvas.antt =====
-- `StudioGraphSvg` of studio.jsx: the canvas of the studio.
use trace_graph.Base.{
  ℕ, suc, ◌+◌, ◌*◌, Text, codes, text_eq, decimal, List, [], ◌∷◌, ◌++◌, Option, some, map,
  if◌then◌else◌,
}
use trace_graph.Site.Markup.{
  defs_tag, g_tag, line_tag, marker_tag, path_tag, rect_tag, svg_tag, text_tag, set_active_name,
  class_name, style_attr, on_click, attr, Node, txt, keyed, el, when_text,
}
use trace_graph.Site.Explorer.Data.{Place, Edge, edges, node_layout}
use trace_graph.Site.Drawing.{half_text, quarter_text, difference_text}
use trace_graph.Spa.Steps.{◌>>=◌}
use trace_graph.Site.Explorer.GraphView.{place_at}

-- An edge between two places.
unfoldable pub canvas_edge : (i : ℕ) (e : Edge) (a b : Place) → Node
unfolding half_text quarter_text difference_text
canvas_edge i e a b = keyed (decimal i) (
    el g_tag [] (
      el path_tag
        (attr (codes "d") (
            (codes "M ")
            ++ ((half_text (2 * a.x + a.w))
                ++ ((codes " ")
                    ++ ((decimal (a.y + a.h))
                        ++ ((codes " C ")
                            ++ ((half_text (2 * a.x + a.w))
                                ++ ((codes " ")
                                    ++ ((decimal (a.y + a.h + 30))
                                        ++ ((codes ", ")
                                            ++ ((half_text (2 * b.x + b.w))
                                                ++ ((codes " ")
                                                    ++ ((difference_text (4 * b.y) 120)
                                                        ++ ((codes ", ")
                                                            ++ ((half_text (2 * b.x + b.w))
                                                            ++ ((codes " ")
                                                            ++ (decimal b.y))))))))))))))))
          ∷ attr (codes "fill") (codes "none")
          ∷ attr (codes "stroke") (codes "currentColor")
          ∷ attr (codes "strokeWidth") (codes "1.4")
          ∷ attr (codes "markerEnd") (codes "url(#st-arr)")
          ∷ [])
        []
      ∷ when_text e.label (λ present.
        (el g_tag [] (
          el rect_tag
            (attr (codes "x") (difference_text (2 * a.x + a.w + (2 * b.x + b.w)) 128)
              ∷ attr (codes "y") (difference_text (2 * (a.y + a.h + b.y)) 40)
              ∷ attr (codes "width") (codes "64")
              ∷ attr (codes "height") (codes "20")
              ∷ attr (codes "rx") (codes "4")
              ∷ attr (codes "fill") (codes "white")
              ∷ attr (codes "stroke") (codes "currentColor")
              ∷ attr (codes "strokeOpacity") (codes "0.3")
              ∷ class_name (codes "dark:fill-ink-900")
              ∷ [])
            []
          ∷ el text_tag
              (attr (codes "x") (quarter_text (2 * a.x + a.w + (2 * b.x + b.w)))
                ∷ attr (codes "y") (half_text (a.y + a.h + b.y + 8))
                ∷ attr (codes "textAnchor") (codes "middle")
                ∷ class_name (codes "mono fill-ink-700 dark:fill-ink-300")
                ∷ attr (codes "fontSize") (codes "10")
                ∷ [])
              (txt present ∷ [])
          ∷ []))
        ∷ [])))

-- The edges in order; `none` is the TypeError on an end with no place.
unfoldable pub canvas_edges : List Place → ℕ → List Edge → Option (List Node)
unfolding canvas_edge place_at
canvas_edges layout i [] = some []
canvas_edges layout i (e ∷ es) = do
  a ← place_at layout e.from
  b ← place_at layout e.to
  rest ← canvas_edges layout (suc i) es
  some (canvas_edge i e a b ∷ rest)

-- A node of the canvas.
unfoldable pub canvas_node_view : (active : Text) (n : Place) → Node
unfolding half_text
canvas_node_view active n = keyed n.name (
    el g_tag
      (style_attr ((codes "cursor", codes "pointer") ∷ []) ∷ on_click (set_active_name n.name) ∷ [])
      (el rect_tag
          (attr (codes "x") (decimal n.x)
            ∷ attr (codes "y") (decimal n.y)
            ∷ attr (codes "width") (decimal n.w)
            ∷ attr (codes "height") (decimal n.h)
            ∷ attr (codes "rx") (codes "10")
            ∷ attr (codes "fill")
                (if text_eq n.name active then codes "rgba(13,143,99,0.10)" else codes "white")
            ∷ attr (codes "stroke")
                (if text_eq n.name active then codes "#0d8f63" else codes "currentColor")
            ∷ attr (codes "strokeWidth")
                (if text_eq n.name active then codes "2.2" else codes "1.4")
            ∷ class_name (if text_eq n.name active then [] else codes "dark:fill-ink-900")
            ∷ [])
          []
        ∷ el text_tag
            (attr (codes "x") (half_text (2 * n.x + n.w))
              ∷ attr (codes "y") (decimal (n.y + 22))
              ∷ attr (codes "textAnchor") (codes "middle")
              ∷ class_name (codes "mono fill-ink-950 dark:fill-white")
              ∷ attr (codes "fontSize") (codes "13")
              ∷ attr (codes "fontWeight") (codes "500")
              ∷ [])
            (txt n.name ∷ [])
        ∷ el text_tag
            (attr (codes "x") (half_text (2 * n.x + n.w))
              ∷ attr (codes "y") (decimal (n.y + 39))
              ∷ attr (codes "textAnchor") (codes "middle")
              ∷ class_name (codes "mono fill-ink-500")
              ∷ attr (codes "fontSize") (codes "10")
              ∷ [])
            (txt n.kind ∷ [])
        ∷ []))

-- The drawing, by its edges and the places of the entry and of the terminal.
unfoldable pub canvas_frame : (active : Text) (edge_list : List Node) (first last : Place) → Node
unfolding canvas_node_view node_layout half_text difference_text
canvas_frame active edge_list first last =
    el svg_tag
      (attr (codes "viewBox") (codes "0 0 760 580")
        ∷ attr (codes "preserveAspectRatio") (codes "xMidYMid meet")
        ∷ class_name (codes "w-full h-full text-ink-950 dark:text-white")
        ∷ [])
      (el defs_tag [] (
          el marker_tag
            (attr (codes "id") (codes "st-arr")
              ∷ attr (codes "viewBox") (codes "0 0 10 10")
              ∷ attr (codes "refX") (codes "9")
              ∷ attr (codes "refY") (codes "5")
              ∷ attr (codes "markerWidth") (codes "6")
              ∷ attr (codes "markerHeight") (codes "6")
              ∷ attr (codes "orient") (codes "auto")
              ∷ [])
            (el path_tag
                (attr (codes "d") (codes "M0,0 L10,5 L0,10 z")
                  ∷ attr (codes "fill") (codes "currentColor")
                  ∷ [])
                []
              ∷ [])
          ∷ [])
        ∷ el rect_tag
            (attr (codes "x") (decimal (first.x + 15))
              ∷ attr (codes "y") (codes "30")
              ∷ attr (codes "width") (difference_text (4 * first.w) 120)
              ∷ attr (codes "height") (codes "22")
              ∷ attr (codes "rx") (codes "4")
              ∷ attr (codes "fill") (codes "currentColor")
              ∷ [])
            []
        ∷ el text_tag
            (attr (codes "x") (half_text (2 * first.x + first.w))
              ∷ attr (codes "y") (codes "45")
              ∷ attr (codes "textAnchor") (codes "middle")
              ∷ attr (codes "fill") (codes "white")
              ∷ class_name (codes "mono")
              ∷ attr (codes "fontSize") (codes "10")
              ∷ [])
            (txt (codes "▼ entry") ∷ [])
        ∷ (edge_list
            ++ (map (canvas_node_view active) node_layout
                ++ (el line_tag
                      (attr (codes "x1") (half_text (2 * last.x + last.w))
                        ∷ attr (codes "y1") (decimal (last.y + last.h))
                        ∷ attr (codes "x2") (half_text (2 * last.x + last.w))
                        ∷ attr (codes "y2") (decimal (last.y + last.h + 24))
                        ∷ attr (codes "stroke") (codes "currentColor")
                        ∷ attr (codes "strokeWidth") (codes "1.4")
                        ∷ [])
                      []
                    ∷ el rect_tag
                        (attr (codes "x") (decimal (last.x + 15))
                          ∷ attr (codes "y") (decimal (last.y + last.h + 24))
                          ∷ attr (codes "width") (difference_text (4 * last.w) 120)
                          ∷ attr (codes "height") (codes "22")
                          ∷ attr (codes "rx") (codes "4")
                          ∷ attr (codes "fill") (codes "currentColor")
                          ∷ [])
                        []
                    ∷ el text_tag
                        (attr (codes "x") (half_text (2 * last.x + last.w))
                          ∷ attr (codes "y") (decimal (last.y + last.h + 39))
                          ∷ attr (codes "textAnchor") (codes "middle")
                          ∷ attr (codes "fill") (codes "white")
                          ∷ class_name (codes "mono")
                          ∷ attr (codes "fontSize") (codes "10")
                          ∷ [])
                        (txt (codes "▲ terminal") ∷ [])
                    ∷ []))))

-- `StudioGraphSvg`.
unfoldable pub studio_graph_svg : Text → Option Node
unfolding canvas_frame canvas_edges place_at node_layout edges
studio_graph_svg active = do
  edge_list ← canvas_edges node_layout 0 edges
  first ← place_at node_layout (codes "validate")
  last ← place_at node_layout (codes "ship")
  some (canvas_frame active edge_list first last)
