-- ===== src/Site/Explorer/Tests.antt =====
-- The theorems on the explorer, at the run and the graph of the site.
use trace_graph.Base.{codes, List, [], ◌∷◌, some, map, get_elem?, ◌≡◌, refl, false}
use trace_graph.Value.{arr, obj, nil, end, field}
use trace_graph.Site.Explorer.Data.{
  Step, validate_step, enrich_step, score_step, charge_step, ship_step, trace_list,
}
use trace_graph.Site.Explorer.{
  Click, step_button, graph_node, timeline_button, clicks, step_buttons, inspect, inspector,
}
use trace_graph.Site.Explorer.Selection.{
  IsIndexed, marked_rows, clicks-inspector, clicks-marked_one,
}
use trace_graph.Site.Explorer.Runs.{
  trace_runs, live_ids, id_items, completed_run, sample_view, trace_runs-ids,
}

abbrev rest_steps : List Step
rest_steps = enrich_step ∷ score_step ∷ charge_step ∷ ship_step ∷ []

steps-IsIndexed : IsIndexed 0 (validate_step ∷ rest_steps)
unfolding validate_step enrich_step score_step charge_step ship_step
steps-IsIndexed = (refl, (refl, (refl, (refl, (refl, tt)))))

abbrev some_clicks : List Click
some_clicks =
    graph_node (codes "ship")
    ∷ step_button 9
    ∷ timeline_button 3
    ∷ graph_node (codes "nowhere")
    ∷ []

clicks-inspector_example :
    (s : Step) × (get_elem?
        (validate_step ∷ rest_steps)
        (clicks (validate_step ∷ rest_steps) 0 some_clicks)
      ≡ some s)
    × (s.i ≡ clicks (validate_step ∷ rest_steps) 0 some_clicks)
    × (inspector (validate_step ∷ rest_steps) (clicks (validate_step ∷ rest_steps) 0 some_clicks)
        ≡ some (inspect s))
clicks-inspector_example = clicks-inspector validate_step rest_steps some_clicks steps-IsIndexed

clicks-marked_one_example :
    marked_rows (
      step_buttons (clicks (validate_step ∷ rest_steps) 0 some_clicks) (validate_step ∷ rest_steps))
    ≡ 1
clicks-marked_one_example = clicks-marked_one validate_step rest_steps some_clicks steps-IsIndexed

trace_runs-ids_example :
    (trace_runs (λ v. false) trace_list (live_ids (arr (id_items (codes "a1" ∷ codes "b2" ∷ []))))
      ≡ some (map completed_run (codes "a1" ∷ codes "b2" ∷ [])))
    × (trace_runs
          (λ v. false)
          trace_list
          (live_ids
            (obj (field (codes "items") (arr (id_items (codes "a1" ∷ codes "b2" ∷ []))) end)))
        ≡ some (map completed_run (codes "a1" ∷ codes "b2" ∷ [])))
    × (trace_runs (λ v. false) trace_list (live_ids (arr nil)) ≡ some (map sample_view trace_list))
trace_runs-ids_example = trace_runs-ids (λ v. false) trace_list (codes "a1") (codes "b2" ∷ [])
