-- ===== src/Site/App/Clicks.antt =====
-- What the elements of the explorer and of the studio do when they are clicked, against the events
-- of the pages.
use trace_graph.Base.{
  ℕ, Text, codes, text_eq, List, [], ◌∷◌, ◌++◌, map, Bool, Option, some, ◌≡◌, refl, subst,
  get_elem?,
}
use mathlib.Core.Option.{some-injective}
use trace_graph.Value.{Js}
use trace_graph.Spa.Steps.{>>=-eq-some}
use trace_graph.Site.Markup.{Node, nodes, Action, set_active_idx, set_active_name, show_alert}
use trace_graph.Site.Markup.Tree.{actions, actions_in, attr_actions}
use trace_graph.Site.Explorer.{Click, step_button, graph_node, timeline_button, click, fork_message}
use trace_graph.Site.Explorer.Data.{Step, steps, node_layout, edges, execution_id}
use trace_graph.Site.Explorer.GraphView.{trace_graph_svg, edge_nodes, place_at}
use trace_graph.Site.Explorer.Page.{explorer, run_options}
use trace_graph.Site.Explorer.Runs.{trace_runs}
use trace_graph.Site.Studio.{Pick, list_button, canvas_node, pick}
use trace_graph.Site.Studio.Data.{studio_nodes}
use trace_graph.Site.Studio.Canvas.{studio_graph_svg, canvas_edges}
use trace_graph.Site.Studio.Panel.{props_panel}
use trace_graph.Site.Studio.Page.{studio_page, studio_frame, graph_size, mermaid_action}
use trace_graph.Site.App.Plain.{run_options-IsPlain}
use trace_graph.Site.App.Plain.Panels.{
  graph_size-IsQuiet, inspector_panel-IsQuiet, props_panel-IsQuiet,
}
use trace_graph.Site.Explorer.Inspect.{inspector_panel}
use trace_graph.Site.Explorer.Page.{explorer_frame, top_bar, graph_panel}
use trace_graph.Site.Explorer.Panels.{step_list_panel, logs_panel}
use trace_graph.Site.Explorer.Timeline.{timeline_panel}

-- The clicks that the page offers: the rows of the step list, the nodes of the graph, the bars of
-- the timeline, each from the first to the last.
abbrev pub step_clicks : List Click
step_clicks = step_button 0 ∷ step_button 1 ∷ step_button 2 ∷ step_button 3 ∷ step_button 4 ∷ []

abbrev pub graph_clicks : List Click
graph_clicks =
    graph_node (codes "validate")
    ∷ graph_node (codes "enrich")
    ∷ graph_node (codes "score")
    ∷ graph_node (codes "charge")
    ∷ graph_node (codes "ship")
    ∷ []

abbrev pub timeline_clicks : List Click
timeline_clicks =
    timeline_button 0
    ∷ timeline_button 1
    ∷ timeline_button 2
    ∷ timeline_button 3
    ∷ timeline_button 4
    ∷ []

-- What the explorer does on a click.
abbrev pub explorer_action : ℕ → Click → Action
explorer_action active c = set_active_idx (click steps active c)

drawing-actions :
    (active : ℕ) (drawing : Node)
    → trace_graph_svg active ≡ some drawing
    → actions drawing ≡ map (explorer_action active) graph_clicks
unfolding actions attr_actions trace_graph_svg edge_nodes place_at node_layout edges steps click
    text_eq codes
drawing-actions active drawing e =
    subst (λ d. actions d ≡ map (explorer_action active) graph_clicks) (some-injective _ _ e) refl

frame-actions :
    (percent wide_percent : ℕ → ℕ → Text) (options : List Node) (message : Text) (active : ℕ)
    (s : Step) (drawing : Node)
    → actions_in (nodes options) ≡ []
    → actions (inspector_panel s) ≡ []
    → actions drawing ≡ map (explorer_action active) graph_clicks
    → actions (
        explorer_frame
          (top_bar options message)
          (step_list_panel active)
          (graph_panel drawing)
          (inspector_panel s)
          (timeline_panel percent wide_percent active s)
          logs_panel)
      ≡ show_alert message
        ∷ map (explorer_action active) (step_clicks ++ (graph_clicks ++ timeline_clicks))
unfolding actions attr_actions explorer_frame top_bar step_list_panel graph_panel timeline_panel
    logs_panel steps click text_eq codes
frame-actions percent wide_percent options message active s drawing p q e = rw (p, q, e) refl

-- Every page of the explorer that is rendered offers the button that shows the message of the fork,
-- and then clicks that do what the events of the explorer do: one for each row of the step list,
-- each node of the graph and each bar of the timeline, in that order. The options of the run list
-- and the panel of the step offer none.
pub explorer-actions :
    (percent wide_percent : ℕ → ℕ → Text) (exceeds_zero : Js → Bool) (answer : Js) (active : ℕ)
    (n : Node)
    → explorer percent wide_percent exceeds_zero answer active ≡ some n
    → (message : Text) × (fork_message execution_id steps active ≡ some message)
      × (actions n
          ≡ show_alert message
            ∷ map (explorer_action active) (step_clicks ++ (graph_clicks ++ timeline_clicks)))
unfolding explorer
explorer-actions percent wide_percent exceeds_zero answer active n e =
    let (runs, _, e1) = >>=-eq-some (trace_runs _ _ _) _ e in
    let (options, listed, e2) = >>=-eq-some (run_options runs) _ e1 in
    let (drawing, drawn, e3) = >>=-eq-some (trace_graph_svg active) _ e2 in
    let (s, open_step, e4) = >>=-eq-some (get_elem? steps active) _ e3 in
    let (message, shown, e5) = >>=-eq-some (fork_message execution_id steps active) _ e4 in
    (
      message,
      shown,
      subst
          (λ m.
            actions m
            ≡ show_alert message
              ∷ map (explorer_action active) (step_clicks ++ (graph_clicks ++ timeline_clicks)))
          (some-injective _ _ e5)
          (frame-actions percent wide_percent options message active s drawing
            (run_options-IsPlain runs options listed).no_actions
            (inspector_panel-IsQuiet active s open_step).no_actions
            (drawing-actions active drawing drawn)),
    )

-- The clicks that the studio offers: the buttons of the list and the nodes of the canvas.
abbrev pub offered_picks : List Pick
offered_picks =
    list_button 0
    ∷ list_button 1
    ∷ list_button 2
    ∷ list_button 3
    ∷ list_button 4
    ∷ canvas_node 0
    ∷ canvas_node 1
    ∷ canvas_node 2
    ∷ canvas_node 3
    ∷ canvas_node 4
    ∷ []

abbrev pub studio_action : Text → Pick → Action
studio_action active p = set_active_name (pick studio_nodes node_layout active p)

canvas-actions :
    (active : Text) (canvas : Node)
    → studio_graph_svg active ≡ some canvas
    → actions canvas
      ≡ map
          (studio_action active)
          (canvas_node 0 ∷ canvas_node 1 ∷ canvas_node 2 ∷ canvas_node 3 ∷ canvas_node 4 ∷ [])
unfolding actions attr_actions studio_graph_svg canvas_edges place_at node_layout edges pick
    studio_nodes text_eq codes
canvas-actions active canvas e =
    subst
      (λ d.
        actions d
        ≡ map (studio_action active)
            (canvas_node 0 ∷ canvas_node 1 ∷ canvas_node 2 ∷ canvas_node 3 ∷ canvas_node 4 ∷ []))
      (some-injective _ _ e) refl

studio_frame-actions :
    (active : Text) (mermaid : Option Text) (size canvas props : Node)
    → actions size ≡ []
    → actions props ≡ []
    → actions canvas
      ≡ map
          (studio_action active)
          (canvas_node 0 ∷ canvas_node 1 ∷ canvas_node 2 ∷ canvas_node 3 ∷ canvas_node 4 ∷ [])
    → actions (studio_frame active mermaid size canvas props)
      ≡ mermaid_action mermaid ∷ map (studio_action active) offered_picks
unfolding actions attr_actions studio_frame pick studio_nodes node_layout text_eq codes
studio_frame-actions active mermaid size canvas props p q e = rw (p, q, e) refl

-- Every page of the studio that is rendered offers the button of the Mermaid text, and then clicks
-- that do what the events of the studio do: one for each button of the list and each node of the
-- canvas, in that order.
pub studio-actions :
    (mermaid : Option Text) (complexity : Js) (active : Text) (n : Node)
    → studio_page mermaid complexity active ≡ some n
    → actions n ≡ mermaid_action mermaid ∷ map (studio_action active) offered_picks
unfolding studio_page
studio-actions mermaid complexity active n e =
    let (size, sized, e1) = >>=-eq-some (graph_size complexity) _ e in
    let (canvas, drawn, e2) = >>=-eq-some (studio_graph_svg active) _ e1 in
    let (props, shown, e3) = >>=-eq-some (props_panel active) _ e2 in
    subst (λ m. actions m ≡ mermaid_action mermaid ∷ map (studio_action active) offered_picks)
      (some-injective _ _ e3)
      (studio_frame-actions active mermaid size canvas props
        (graph_size-IsQuiet complexity size sized).no_actions
        (props_panel-IsQuiet active props shown).no_actions (canvas-actions active canvas drawn))
