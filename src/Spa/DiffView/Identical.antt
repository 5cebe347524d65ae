-- ===== src/Spa/DiffView/Identical.antt =====
-- The comparison of two executions that share all their steps.
use trace_graph.Base.{length, Text, codes, decimal, List, ◌++◌, some, ◌≡◌, refl, All}
use trace_graph.Value.{
  Js, arr, obj, nil, Items, items, Fields, field_at, get, opt_get, nullish, num,
}
use trace_graph.Spa.Platform.{Platform}
use trace_graph.Spa.Api.{ApiResult, value}
use trace_graph.Spa.Steps.{or_empty}
use trace_graph.Spa.Template.{Piece}
use trace_graph.Spa.TraceView.Markup.{IsStep}
use trace_graph.Spa.DiffView.{
  diff_path, remainder, length_of, are_shown, is_array, step_lines, diff_summary, prefix_block,
  columns_block, no_divergence, diff_page, load_diff,
}
use trace_graph.Spa.DiffView.Rows.{step_lines-some}

-- A document of the server for two executions that share all steps: no remainders, and some
-- divergence index, which the server gives as -1.
pub record IsIdentical (fs : Fields) (prefix : Items) (index : Js) : Type 0 where
  pub common : field_at (codes "commonPrefix") fs ≡ arr prefix
  pub lefts : field_at (codes "leftRemainder") fs ≡ arr nil
  pub rights : field_at (codes "rightRemainder") fs ≡ arr nil
  pub divergence :
      nullish (field_at (codes "divergenceIndex") fs) (num (length (items prefix))) ≡ index
  pub prefix_steps : All IsStep (items prefix)

diff_page-identical :
    (pf : Platform) (a b : Text) (fs : Fields) (prefix : Items) (index : Js)
    → IsIdentical fs prefix index
    → (common : List Piece) → step_lines decimal 0 (items prefix) ≡ some common
    → diff_page pf a b (obj fs)
      ≡ some (diff_summary (obj fs) index ++ (prefix_block (items prefix) common ++ no_divergence))
unfolding diff_page get opt_get or_empty nullish remainder length_of are_shown is_array
    columns_block items step_lines
diff_page-identical pf a b fs prefix index d common e =
    rw (d.common, d.lefts, d.rights, e) (rw d.divergence refl)

-- When the server answers with two executions that share all their steps, the comparison has the
-- lines of all steps numbered from zero and the note that nothing diverges, and no columns. Its
-- summary names the divergence index as it was sent.
pub load_diff-identical :
    (pf : Platform) (api : Text → ApiResult) (a b : Text) (fs : Fields) (prefix : Items)
    (index : Js)
    → api (diff_path a b) ≡ value (obj fs)
    → IsIdentical fs prefix index
    → (common : List Piece) × (step_lines decimal 0 (items prefix) ≡ some common)
      × (load_diff pf api a b
          ≡ some (
              diff_summary (obj fs) index ++ (prefix_block (items prefix) common ++ no_divergence)))
unfolding load_diff
load_diff-identical pf api a b fs prefix index h d =
    let (common, e) = step_lines-some decimal 0 (items prefix) d.prefix_steps in
    (common, e, rw (h, load_diff) (diff_page-identical pf a b fs prefix index d common e))
