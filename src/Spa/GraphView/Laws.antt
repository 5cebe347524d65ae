-- ===== src/Spa/GraphView/Laws.antt =====
-- The graph view on its four outcomes, and the tags of its table.
use trace_graph.Base.{Text, codes, count, length, [], ◌∷◌, ◌++◌, ◌≡◌, refl, ◌+◌, ◌*◌, arith}
use trace_graph.Value.{Js, obj, Fields, end, field, keys}
use trace_graph.Spa.Api.{ApiResult, value}
use trace_graph.Spa.Template.{markup}
use trace_graph.Spa.Template.Brackets.{
  open_count, Opens, Opens-append, HasBrackets, markup-HasBrackets,
}
use trace_graph.Spa.GraphView.{
  heading, stats_head, stats_end, metric_row, field_rows, or_no_metrics, mermaid_block,
  complexity_block, render_graph,
}

metric_row-Opens : (k : Text) (v : Js) → Opens (metric_row k v) 6
unfolding metric_row open_count count codes
metric_row-Opens k v = (refl, refl)

field_rows-Opens : (fs : Fields) → Opens (field_rows fs) (6 * length (keys fs))
unfolding field_rows keys
field_rows-Opens end = unfold open_count in (refl, refl)
field_rows-Opens (field k v fs) =
    let (p, q) =
      Opens-append _ _ 6 (6 * length (keys fs)) (metric_row-Opens k v) (field_rows-Opens fs) in
    (omega (arith, p), omega (arith, q))

mermaid_block-Opens : (src : Js) → Opens (mermaid_block (value src)) 4
unfolding mermaid_block open_count count codes
mermaid_block-Opens src = (refl, refl)

heading-Opens : Opens (heading ∷ []) 2
unfolding open_count count codes
heading-Opens = (refl, refl)

stats_head-Opens : Opens (stats_head ∷ []) 12
unfolding open_count count codes
stats_head-Opens = (refl, refl)

stats_end-Opens : Opens (stats_end ∷ []) 2
unfolding open_count count codes
stats_end-Opens = (refl, refl)

some_metrics :
    (k : Text) (v : Js) (fs : Fields)
    → or_no_metrics (field_rows (field k v fs)) ≡ field_rows (field k v fs)
unfolding or_no_metrics field_rows metric_row
some_metrics k v fs = refl

complexity_block-Opens :
    (k : Text) (v : Js) (fs : Fields)
    → Opens
        (complexity_block (value (obj (field k v fs))))
        (12 + (6 * length (keys (field k v fs)) + 2))
unfolding complexity_block
complexity_block-Opens k v fs =
    let rows = field_rows (field k v fs) in
    rw (some_metrics k v fs) (
      Opens-append (stats_head ∷ []) (rows ++ (stats_end ∷ [])) 12 _ stats_head-Opens
        (Opens-append rows (stats_end ∷ []) _ 2 (field_rows-Opens (field k v fs)) stats_end-Opens))

-- If both requests are answered and the metrics are an object with a field, the view has the
-- heading, the two elements of the diagram and a table with one row of two cells for each metric,
-- whatever the texts are.
pub render_graph-HasBrackets :
    (api : Text → ApiResult) (src : Js) (k : Text) (v : Js) (fs : Fields)
    → api (codes "/tracegraph/ui/graph") ≡ value src
    → api (codes "/tracegraph/ui/complexity") ≡ value (obj (field k v fs))
    → HasBrackets
        (markup (render_graph api))
        (2 + (4 + (12 + (6 * length (keys (field k v fs)) + 2))))
render_graph-HasBrackets api src k v fs h e = markup-HasBrackets (render_graph api) _ (
    unfold render_graph in
    rw (h, e)
      (Opens-append (heading ∷ [])
        (mermaid_block (value src) ++ complexity_block (value (obj (field k v fs)))) 2 _
        heading-Opens
        (Opens-append (mermaid_block (value src)) (complexity_block (value (obj (field k v fs)))) 4
          _ (mermaid_block-Opens src) (complexity_block-Opens k v fs))))
