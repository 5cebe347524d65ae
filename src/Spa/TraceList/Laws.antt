-- ===== src/Spa/TraceList/Laws.antt =====
-- The table of traces has a row for each id, whatever the summaries hold.
use trace_graph.Base.{
  ℕ, Text, codes, count, length, List, [], ◌∷◌, ◌++◌, some, ◌≡◌, refl, ◌+◌, ◌*◌, arith,
}
use trace_graph.Value.{Js, elements?}
use trace_graph.Spa.Api.{ApiResult, value}
use trace_graph.Spa.Template.{Piece, markup}
use trace_graph.Spa.Template.Brackets.{
  open_count, Opens, Opens-append, HasBrackets, markup-HasBrackets,
}
use trace_graph.Spa.TraceList.{
  summary, trace_path, list_row, list_rows, table_head, table_end, list_table, list_body,
  render_trace_list,
}

table_head-Opens : Opens (table_head ∷ []) 16
unfolding open_count count codes
table_head-Opens = (refl, refl)

table_end-Opens : Opens (table_end ∷ []) 2
unfolding open_count count codes
table_end-Opens = (refl, refl)

list_table-Opens :
    (rows : List Piece) (n : ℕ) → Opens rows n → Opens (list_table rows) (16 + (n + 2))
unfolding list_table
list_table-Opens rows n h =
    Opens-append (table_head ∷ []) (rows ++ (table_end ∷ [])) 16 (n + 2) table_head-Opens
      (Opens-append rows (table_end ∷ []) n 2 h table_end-Opens)

module _ (local_time : Js → Text) where
  list_row-Opens : (id t : Js) → Opens (list_row local_time id t) 12
  unfolding list_row open_count count codes
  list_row-Opens id t = (refl, refl)

  list_rows-Opens :
      (api : Text → ApiResult) (ids : List Js)
      → Opens (list_rows local_time api ids) (12 * length ids)
  unfolding list_rows
  list_rows-Opens api [] = unfold open_count in (refl, refl)
  list_rows-Opens api (id ∷ ids) =
      let (p, q) =
        Opens-append _ _ 12 (12 * length ids) (list_row-Opens id (summary (api (trace_path id))))
          (list_rows-Opens api ids) in
      (omega (arith, p), omega (arith, q))

  -- If the server lists at least one id, the view is a table with one row of six elements for each of them,
  -- in whatever state their summaries are: no id, status or time adds a tag.
  pub render_trace_list-HasBrackets :
      (api : Text → ApiResult) (ids : Js) (id : Js) (rest : List Js)
      → api (codes "/tracegraph/traces") ≡ value ids
      → elements? ids ≡ some (id ∷ rest)
      → HasBrackets (markup (render_trace_list local_time api)) (16 + (12 * length (id ∷ rest) + 2))
  unfolding render_trace_list list_body
  render_trace_list-HasBrackets api ids id rest h e =
      rw (h, render_trace_list)
        (rw (e, list_body)
          (markup-HasBrackets _ _ (list_table-Opens _ _ (list_rows-Opens api (id ∷ rest)))))
