-- ===== src/Spa/Tests/Views.antt =====
-- The views at the answers of the small server.
use trace_graph.Base.{
  ℕ, codes, decimal, text_eq, length, List, [], ◌∷◌, ◌++◌, ◌≡◌, refl, starts_with, true, some, none,
  inr, ◌+◌, ◌*◌, ◌/◌,
}
use trace_graph.Value.{
  Js, num, str, null, obj, arr, items, Items, nil, cons, get, opt_get, field_at, keys, field, end,
  elements?,
}
use trace_graph.Spa.TraceView.{
  panel, click_row, clicked, ignored, other_part, step_btn, attribute, render_trace,
}
use trace_graph.Spa.TraceView.Click.{click_row-shown}
use trace_graph.Spa.Api.{value, failure, Response, answered, parsed, api_fetch, is_not_found}
use trace_graph.Spa.Api.Laws.{api_fetch-not_found}
use trace_graph.Spa.Template.{Piece, markup}
use trace_graph.Spa.Template.Brackets.{HasBrackets, Opens, HasBrackets-decimal}
use trace_graph.Spa.TraceList.{render_trace_list}
use trace_graph.Spa.TraceList.Laws.{render_trace_list-HasBrackets}
use trace_graph.Spa.TraceView.{step_row, step_rows}
use trace_graph.Spa.TraceView.Markup.{
  step_rows-Opens, step_rows-HasBrackets, step_rows-position, render_trace-null,
}
use trace_graph.Spa.GraphView.{render_graph}
use trace_graph.Spa.GraphView.Laws.{render_graph-HasBrackets}
use trace_graph.Spa.Router.{graph, trace, trace_list}
use trace_graph.Spa.Session.{Screen, loaded, navigate, Reach}
use trace_graph.Spa.Session.Stale.{start, opened, IsCurrent, Patient-IsCurrent, stale_view}
use trace_graph.Spa.Tests.{
  platform, server, validate_fields, charge_fields, listed_ids, metric_fields,
}
use trace_graph.Spa.Tests.Comparison.{validate_IsStep, charge_IsStep}

ids_listed : server (codes "/tracegraph/traces") ≡ value (arr listed_ids)
unfolding server codes text_eq
ids_listed = refl

ids_elements : elements? (arr listed_ids) ≡ some (str (codes "a1") ∷ str (codes "b&2") ∷ [])
unfolding elements? items
ids_elements = refl

render_trace_list-HasBrackets_example :
    HasBrackets
      (markup (render_trace_list platform.local_time server))
      (16 + (12 * length (str (codes "a1") ∷ str (codes "b&2") ∷ []) + 2))
render_trace_list-HasBrackets_example =
    render_trace_list-HasBrackets platform.local_time server (arr listed_ids) (str (codes "a1"))
      (str (codes "b&2") ∷ []) ids_listed ids_elements

platform_seconds : (ms : ℕ) → HasBrackets (platform.seconds ms) 0
platform_seconds ms = HasBrackets-decimal (ms / 1000)

step_rows-HasBrackets_example :
    (rows : List Piece) × (step_rows platform 0 (obj validate_fields ∷ obj charge_fields ∷ [])
      ≡ some rows)
    × (HasBrackets (markup rows) (10 * length (obj validate_fields ∷ obj charge_fields ∷ [])))
step_rows-HasBrackets_example =
    step_rows-HasBrackets platform platform_seconds 0 (obj validate_fields ∷ obj charge_fields ∷ [])
      (validate_IsStep, (charge_IsStep, tt))

sample_rows :
    (rows : List Piece) × (step_rows platform 0
        ((obj validate_fields ∷ []) ++ (obj charge_fields ∷ []))
      ≡ some rows)
    × (Opens rows 20)
sample_rows =
    step_rows-Opens platform platform_seconds 0 (obj validate_fields ∷ obj charge_fields ∷ [])
      (validate_IsStep, (charge_IsStep, tt))

click_row-shown_example :
    (before : List Piece) × (row : List Piece) × (after : List Piece) × (p : List Piece)
    × (sample_rows.0 ≡ before ++ (row ++ after))
    × (panel platform (length (obj validate_fields ∷ [])) (obj charge_fields) ≡ some p)
    × (click_row platform ((obj validate_fields ∷ []) ++ (obj charge_fields ∷ [])) row other_part
        ≡ clicked (some p))
    × (click_row platform ((obj validate_fields ∷ []) ++ (obj charge_fields ∷ [])) row step_btn
        ≡ ignored)
click_row-shown_example =
    click_row-shown platform (obj validate_fields ∷ []) (obj charge_fields) [] sample_rows.0
      sample_rows.1

step_rows-position_example :
    (before : List Piece) × (row : List Piece) × (after : List Piece) × (sample_rows.0
      ≡ before ++ (row ++ after))
    × (step_row platform (length (obj validate_fields ∷ [])) (obj charge_fields) ≡ some row)
    × (attribute (codes "data-idx") row ≡ some (decimal (length (obj validate_fields ∷ []))))
    × (attribute (codes "data-replay") row ≡ some (decimal (length (obj validate_fields ∷ []))))
step_rows-position_example =
    step_rows-position platform (obj validate_fields ∷ []) (obj charge_fields) [] sample_rows.0
      sample_rows.1

-- A trace whose second step is null.
abbrev holed : Items
holed = cons (obj validate_fields) (cons null (cons (obj charge_fields) nil))

abbrev holed_trace : Js
holed_trace = obj (field (codes "steps") (arr holed) end)

holed_steps :
    (get (codes "steps") holed_trace ≡ some (arr holed))
    × (items holed ≡ (obj validate_fields ∷ []) ++ (null ∷ obj charge_fields ∷ []))
unfolding get codes text_eq items opt_get field_at
holed_steps = (refl, refl)

render_trace-null_example : render_trace platform (λ path. value holed_trace) (codes "a1") ≡ none
render_trace-null_example =
    render_trace-null platform (λ path. value holed_trace) (codes "a1") holed_trace holed
      (obj validate_fields ∷ []) (obj charge_fields ∷ []) refl holed_steps.0 holed_steps.1

graph_answered :
    (server (codes "/tracegraph/ui/graph") ≡ value (str (codes "graph TD")))
    × (server (codes "/tracegraph/ui/complexity") ≡ value (obj metric_fields))
unfolding server codes text_eq
graph_answered = (refl, refl)

render_graph-HasBrackets_example :
    HasBrackets
      (markup (render_graph server))
      (2 + (4 + (12 + (6 * length (keys (field (codes "nodeCount") (num 5) end)) + 2))))
render_graph-HasBrackets_example =
    render_graph-HasBrackets server (str (codes "graph TD")) (codes "nodeCount") (num 5) end
      graph_answered.0 graph_answered.1

abbrev json_response : Response
json_response = record {
  status = 200;
  content_type = some (codes "application/json;charset=UTF-8");
  json = parsed (num 5);
  text = codes "5";
}

abbrev missing_response : Response
missing_response = record json_response { status = 404 }

fetched : api_fetch (answered json_response) ≡ value (num 5)
unfolding api_fetch codes starts_with
fetched = refl

not_fetched : api_fetch (answered missing_response) ≡ failure (codes "HTTP 404") (some 404)
unfolding api_fetch codes decimal
not_fetched = refl

found_missing : is_not_found (some 404) ≡ true
unfolding is_not_found
found_missing = refl

api_fetch-not_found_example :
    (r : Response) × (answered missing_response ≡ answered r) × (r.status ≡ 404)
api_fetch-not_found_example =
    api_fetch-not_found (answered missing_response) (codes "HTTP 404") (some 404) not_fetched
      found_missing

abbrev at_list : Screen
at_list = record { current = trace_list; shown = loaded trace_list; pending = [] }

at_list-IsCurrent : IsCurrent at_list
at_list-IsCurrent = record { fits = inr refl; waits = tt }

Patient-IsCurrent_example : IsCurrent (navigate graph at_list)
Patient-IsCurrent_example = Patient-IsCurrent at_list-IsCurrent (opened graph start refl)

stale_view_example :
    Reach at_list (record { current = graph; shown = loaded (trace (codes "a1")); pending = [] })
stale_view_example = stale_view trace_list (loaded trace_list) (codes "a1")
