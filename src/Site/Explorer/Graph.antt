-- ===== src/Site/Explorer/Graph.antt =====
-- `TraceGraphSvg` of trace.jsx: the styles of the nodes and edges.
use trace_graph.Base.{
  ℕ, Text, codes, text_eq, decimal, ◌==◌, if◌then◌else◌, List, [], ◌∷◌, ◌++◌, Bool, Option, none,
  some, map,
}
use trace_graph.Site.Explorer.Data.{Step, Place, Edge}
use trace_graph.Site.Explorer.{step_for, number_text}

-- The width `sw` is in tenths; a style without `subColor` has none.
pub record NodeStyle : Type 0 where
  pub fill : Text
  pub stroke : Text
  pub sw : ℕ
  pub sub : Text
  pub sub_color : Option Text

unfoldable pub plain_style : NodeStyle
plain_style = record {
  fill = codes "#fff";
  stroke = codes "currentColor";
  sw = 14;
  sub = [];
  sub_color = none;
}

-- The style of a node whose step is found; the flag says that the step is the active one.
unfoldable pub step_style : Bool → Step → NodeStyle
unfolding plain_style
step_style is_active s =
    if text_eq s.status (codes "err")
    then record {
      fill = codes "rgba(244,63,94,0.06)";
      stroke = codes "#e11d48";
      sw = if is_active then 24 else 18;
      sub = codes "✕ FAIL";
      sub_color = some (codes "#e11d48");
    }
    else if text_eq s.status (codes "retry")
    then record {
      fill = codes "rgba(245,158,11,0.07)";
      stroke = codes "#d97706";
      sw = if is_active then 24 else 16;
      sub = codes "↻ " ++ decimal s.attempts;
      sub_color = some (codes "#d97706");
    }
    else if text_eq s.status (codes "parallel")
    then record {
      fill = codes "rgba(0,0,0,0.02)";
      stroke = codes "currentColor";
      sw = if is_active then 24 else 14;
      sub = codes "∥ " ++ number_text s.branches;
      sub_color = some (codes "#6b7280");
    }
    else if text_eq s.status (codes "ok")
    then record {
      fill = codes "rgba(13,143,99,0.08)";
      stroke = codes "#0d8f63";
      sw = if is_active then 24 else 16;
      sub = codes "✓ " ++ (decimal s.dur ++ codes "ms");
      sub_color = some (codes "#0d8f63");
    }
    else plain_style

-- `nodeStyle(name)`
unfoldable pub node_style : List Step → ℕ → Text → NodeStyle
unfolding step_style plain_style
node_style steps active name = elim (step_for steps name) [
  | none ↦ plain_style
  | some s ↦ step_style (s.i == active) s
]

-- `edgeStroke(e)` on the steps found for the two ends.
unfoldable pub stroke_between : Option Step → Option Step → Text
stroke_between (some f) (some t) =
    if text_eq f.status (codes "err")
    then codes "#e11d48"
    else if text_eq t.status (codes "err")
    then codes "#e11d48"
    else codes "#0d8f63"
stroke_between none _ = codes "currentColor"
stroke_between (some f) none = codes "currentColor"

unfoldable pub edge_stroke : List Step → Edge → Text
unfolding stroke_between
edge_stroke steps e = stroke_between (step_for steps e.from) (step_for steps e.to)

-- The arrow head of an edge.
unfoldable pub edge_marker : Text → Text
edge_marker stroke =
    if text_eq stroke (codes "#e11d48") then codes "tg-arr-err" else codes "tg-arr-acc"

-- The second line of a node: its kind and what became of it.
unfoldable pub sub_line : Text → Text → Text
sub_line kind [] = kind
sub_line kind (c ∷ sub) = kind ++ (codes " · " ++ (c ∷ sub))

-- A node as it is drawn, for each entry of the layout.
pub record NodeView : Type 0 where
  pub name : Text
  pub style : NodeStyle
  pub line : Text
  pub line_color : Text

unfoldable pub or_grey : Option Text → Text
or_grey none = codes "#6b7280"
or_grey (some c) = c

unfoldable pub node_views : List Place → List Step → ℕ → List NodeView
unfolding node_style sub_line or_grey
node_views layout steps active =
    map
      (λ n.
        let s = node_style steps active n.name in
        record {
          name = n.name;
          style = s;
          line = sub_line n.kind s.sub;
          line_color = or_grey s.sub_color;
        })
      layout
