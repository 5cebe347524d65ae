-- ===== src/Site/App/Sound/Views.antt =====
-- The explorer and the studio: their links and interactive elements.
use trace_graph.Site.App.Sound.{IsSound}
use trace_graph.Base.{
  ℕ, Text, codes, text_eq, List, [], Bool, true, false, Option, some, ◌≡◌, refl, subst, get_elem?,
}
use mathlib.Core.Option.{some-injective}
use trace_graph.Value.{Js}
use trace_graph.Spa.Steps.{>>=-eq-some}
use trace_graph.Site.Markup.{Node}
use trace_graph.Site.Markup.Tree.{is_flat, links, attr_links, is_interactive}
use trace_graph.Site.Explorer.{fork_message}
use trace_graph.Site.Explorer.Data.{Step, steps, node_layout, edges, execution_id}
use trace_graph.Site.Explorer.GraphView.{trace_graph_svg, edge_nodes, place_at}
use trace_graph.Site.Explorer.Runs.{trace_runs}
use trace_graph.Site.Explorer.Inspect.{inspector_panel}
use trace_graph.Site.Explorer.Page.{explorer, run_options, explorer_frame, top_bar, graph_panel}
use trace_graph.Site.Explorer.Panels.{step_list_panel, logs_panel}
use trace_graph.Site.Explorer.Timeline.{timeline_panel}
use trace_graph.Site.Studio.Data.{studio_nodes}
use trace_graph.Site.Studio.Canvas.{studio_graph_svg, canvas_edges}
use trace_graph.Site.Studio.Panel.{props_panel}
use trace_graph.Site.Studio.Page.{studio_page, studio_frame, graph_size}
use trace_graph.Site.App.Plain.{IsPlain, run_options-IsPlain}
use trace_graph.Site.App.Plain.Panels.{
  IsQuiet, inspector_panel-IsQuiet, props_panel-IsQuiet, graph_size-IsQuiet,
}

drawing-IsQuiet :
    (active : ℕ) (drawing : Node)
    → trace_graph_svg active ≡ some drawing
    → (is_flat false drawing ≡ true) × (links drawing ≡ [])
unfolding is_flat links is_interactive attr_links trace_graph_svg edge_nodes place_at node_layout
    edges steps text_eq codes
drawing-IsQuiet active drawing e =
    subst (λ d. (is_flat false d ≡ true) × (links d ≡ [])) (some-injective _ _ e) (refl, refl)

explorer_frame-IsSound :
    (percent wide_percent : ℕ → ℕ → Text) (options : List Node) (message : Text) (active : ℕ)
    (s : Step) (drawing : Node)
    → IsPlain options
    → IsQuiet (inspector_panel s)
    → (is_flat false drawing ≡ true) × (links drawing ≡ [])
    → IsSound (
        explorer_frame
          (top_bar options message)
          (step_list_panel active)
          (graph_panel drawing)
          (inspector_panel s)
          (timeline_panel percent wide_percent active s)
          logs_panel)
unfolding is_flat links is_interactive attr_links explorer_frame top_bar step_list_panel graph_panel
    timeline_panel logs_panel steps text_eq codes
explorer_frame-IsSound percent wide_percent options message active s drawing p q (f, l) = record {
  flat = rw (p.flat true, q.flat, f) refl;
  leading = rw (p.no_links, q.no_links, l) refl;
}

pub explorer-IsSound :
    (percent wide_percent : ℕ → ℕ → Text) (exceeds_zero : Js → Bool) (answer : Js) (active : ℕ)
    (n : Node)
    → explorer percent wide_percent exceeds_zero answer active ≡ some n
    → IsSound n
unfolding explorer
explorer-IsSound percent wide_percent exceeds_zero answer active n e =
    let (runs, _, e1) = >>=-eq-some (trace_runs _ _ _) _ e in
    let (options, listed, e2) = >>=-eq-some (run_options runs) _ e1 in
    let (drawing, drawn, e3) = >>=-eq-some (trace_graph_svg active) _ e2 in
    let (s, open_step, e4) = >>=-eq-some (get_elem? steps active) _ e3 in
    let (message, shown, e5) = >>=-eq-some (fork_message execution_id steps active) _ e4 in
    subst IsSound (some-injective _ _ e5) (
      explorer_frame-IsSound percent wide_percent options message active s drawing
        (run_options-IsPlain runs options listed) (inspector_panel-IsQuiet active s open_step)
        (drawing-IsQuiet active drawing drawn))

canvas-IsQuiet :
    (active : Text) (canvas : Node)
    → studio_graph_svg active ≡ some canvas
    → (is_flat false canvas ≡ true) × (links canvas ≡ [])
unfolding is_flat links is_interactive attr_links studio_graph_svg canvas_edges place_at node_layout
    edges text_eq codes
canvas-IsQuiet active canvas e =
    subst (λ d. (is_flat false d ≡ true) × (links d ≡ [])) (some-injective _ _ e) (refl, refl)

studio_frame-IsSound :
    (active : Text) (mermaid : Option Text) (size canvas props : Node)
    → IsQuiet size
    → IsQuiet props
    → (is_flat false canvas ≡ true) × (links canvas ≡ [])
    → IsSound (studio_frame active mermaid size canvas props)
unfolding is_flat links is_interactive attr_links studio_frame studio_nodes text_eq codes
studio_frame-IsSound active mermaid size canvas props p q (f, l) = record {
  flat = rw (p.flat, q.flat, f) refl;
  leading = rw (p.no_links, q.no_links, l) refl;
}

pub studio_page-IsSound :
    (mermaid : Option Text) (complexity : Js) (active : Text) (n : Node)
    → studio_page mermaid complexity active ≡ some n
    → IsSound n
unfolding studio_page
studio_page-IsSound mermaid complexity active n e =
    let (size, sized, e1) = >>=-eq-some (graph_size complexity) _ e in
    let (canvas, drawn, e2) = >>=-eq-some (studio_graph_svg active) _ e1 in
    let (props, shown, e3) = >>=-eq-some (props_panel active) _ e2 in
    subst IsSound (some-injective _ _ e3) (
      studio_frame-IsSound active mermaid size canvas props
        (graph_size-IsQuiet complexity size sized) (props_panel-IsQuiet active props shown)
        (canvas-IsQuiet active canvas drawn))
