-- ===== src/Spa/GraphView.antt =====
-- `renderGraph` of app.js.
pub mod Laws
use trace_graph.Base.{
  ℕ, suc, Text, codes, decimal, if◌then◌else◌, List, [], ◌∷◌, ◌++◌, Option, none, some,
}
use trace_graph.Value.{Js, arr, obj, Items, nil, cons, Fields, end, field, to_text}
use trace_graph.Spa.Api.{ApiResult, value, failure}
use trace_graph.Spa.Template.{Piece, lit, escaped, plain}
use trace_graph.Spa.TraceList.{esc_arg}

unfoldable pub metric_row : Text → Js → List Piece
metric_row k v =
    lit "<tr><td>" ∷ escaped k ∷ lit "</td><td>" ∷ escaped (to_text v) ∷ lit "</td></tr>" ∷ []

-- `Object.entries` of an array: its indices are the keys.
unfoldable pub item_rows : ℕ → Items → List Piece
item_rows i nil = []
item_rows i (cons v vs) = metric_row (decimal i) v ++ item_rows (suc i) vs

unfoldable pub field_rows : Fields → List Piece
field_rows end = []
field_rows (field k v fs) = metric_row k v ++ field_rows fs

-- `if (c && typeof c === 'object')`
unfoldable pub stats_rows : Js → List Piece
stats_rows (arr vs) = item_rows 0 vs
stats_rows (obj fs) = field_rows fs
stats_rows _ = []

unfoldable pub or_no_metrics : List Piece → List Piece
or_no_metrics [] = lit "<tr><td colspan=\"2\" class=\"muted\">No metrics available.</td></tr>" ∷ []
or_no_metrics (p ∷ ps) = p ∷ ps

unfoldable pub mermaid_block : ApiResult → List Piece
mermaid_block (value src) =
    lit "<div class=\"mermaid-wrap\"><div class=\"mermaid\">"
    ∷ escaped (esc_arg src)
    ∷ lit "</div></div>"
    ∷ []
mermaid_block (failure m s) =
    lit "<p class=\"error-msg\">Could not load graph: " ∷ escaped m ∷ lit "</p>" ∷ []

abbrev pub stats_head : Piece
stats_head =
    lit
      "<h2>Complexity metrics</h2>\n      <table class=\"stats-table\">\n        <thead><tr><th>Metric</th><th>Value</th></tr></thead>\n        <tbody>"

abbrev pub stats_end : Piece
stats_end = lit "</tbody>\n      </table>"

unfoldable pub complexity_block : ApiResult → List Piece
unfolding stats_rows or_no_metrics
complexity_block (value c) = stats_head ∷ (or_no_metrics (stats_rows c) ++ (stats_end ∷ []))
complexity_block (failure m s) =
    lit "<p class=\"muted\" style=\"margin-top:1rem\">Complexity metrics unavailable ("
    ∷ escaped m
    ∷ lit ").</p>"
    ∷ []

abbrev pub heading : Piece
heading = lit "<h1>Graph</h1>"

unfoldable pub render_graph : (Text → ApiResult) → List Piece
render_graph api =
    heading
    ∷ (mermaid_block (api (codes "/tracegraph/ui/graph"))
        ++ complexity_block (api (codes "/tracegraph/ui/complexity")))
