-- ===== src/Spa/TraceList.antt =====
-- `renderTraceList` of app.js: the markup of the view, and what a click on a row does.
pub mod Laws
pub mod Click
use Prim.Native.String.{String}
use trace_graph.Base.{
  ℕ, Text, codes, decimal, length, if◌then◌else◌, List, [], ◌∷◌, ◌++◌, Option, none, some,
}
use trace_graph.Value.{Js, undefined, null, str, nullish, opt_get, truthy, elements?, to_text}
use trace_graph.Spa.Api.{ApiResult, value, failure}
use trace_graph.Spa.Template.{Piece, lit, escaped, plain}

-- `esc(v)`: the text that is escaped, `String(v ?? '')`.
unfoldable pub esc_arg : Js → Text
esc_arg v = to_text (nullish v (str []))

unfoldable pub trace_path : Js → Text
trace_path id = codes "/tracegraph/traces/" ++ to_text id

-- The summary of an id: the value of its request, or null.
unfoldable pub summary : ApiResult → Js
summary (value v) = v
summary (failure m s) = null

unfoldable pub dash : Js
dash = str (codes "—")

abbrev pub table_head : Piece
table_head =
    lit
      "\n    <h1>Traces</h1>\n    <table>\n      <thead><tr><th>Execution ID</th><th>Status</th><th>Started</th><th>Steps</th></tr></thead>\n      <tbody>"

abbrev pub table_end : Piece
table_end = lit "</tbody>\n    </table>"

unfoldable pub list_table : List Piece → List Piece
list_table rows = table_head ∷ (rows ++ (table_end ∷ []))

unfoldable pub empty_list : List Piece
empty_list = lit "<h1>Traces</h1><p class=\"muted\">No traces recorded yet.</p>" ∷ []

-- `new Date(v).toLocaleString()`, which depends on the user's place, is a parameter.
module _ (local_time : Js → Text) where
  unfoldable pub time_or_dash : Js → Js
  time_or_dash v = if truthy v then str (local_time v) else dash

  unfoldable pub step_count : Option (List Js) → Text
  step_count none = codes "—"
  step_count (some steps) = decimal (length steps)

  unfoldable pub list_row : Js → Js → List Piece
  unfolding time_or_dash step_count
  list_row id t =
      let status = esc_arg (nullish (opt_get (codes "status") t) dash) in
      let started = esc_arg (time_or_dash (opt_get (codes "startedAt") t)) in
      let steps = step_count (elements? (opt_get (codes "steps") t)) in
      lit "<tr data-id=\""
      ∷ escaped (esc_arg id)
      ∷ lit "\">\n      <td style=\"font-family:var(--font-mono);font-size:0.8rem\">"
      ∷ escaped (esc_arg id)
      ∷ lit "</td>\n      <td><span class=\"badge badge-"
      ∷ escaped status
      ∷ lit "\">"
      ∷ escaped status
      ∷ lit "</span></td>\n      <td>"
      ∷ escaped started
      ∷ lit "</td>\n      <td>"
      ∷ escaped steps
      ∷ lit "</td>\n    </tr>"
      ∷ []

  unfoldable pub list_rows : (Text → ApiResult) → List Js → List Piece
  list_rows api [] = []
  list_rows api (id ∷ ids) = list_row id (summary (api (trace_path id))) ++ list_rows api ids

  unfoldable pub list_body : (Text → ApiResult) → Option (List Js) → List Piece
  list_body api none = empty_list
  list_body api (some []) = empty_list
  list_body api (some (id ∷ ids)) = list_table (list_rows api (id ∷ ids))

  -- The markup that the view ends with, by the results of its requests.
  unfoldable pub render_trace_list : (Text → ApiResult) → List Piece
  unfolding list_body empty_list
  render_trace_list api = elim (api (codes "/tracegraph/traces")) [
    | value ids ↦ list_body api (elements? ids)
    | failure m s ↦
        lit "<h1>Traces</h1><p class=\"error-msg\">Failed to load traces: "
        ∷ escaped m
        ∷ lit "</p>"
        ∷ []
  ]
