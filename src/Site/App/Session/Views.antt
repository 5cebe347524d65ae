-- ===== src/Site/App/Session/Views.antt =====
-- The pages render in every state that the sessions keep.
use trace_graph.Site.App.Session.{IsReady}
use trace_graph.Base.{
  find, ap, ℕ, Text, codes, text_eq, List, Option, none, some, false, ◌≡◌, refl, get_elem?,
}
use trace_graph.Spa.Steps.{HasResult, >>=-HasResult}
use trace_graph.Site.Shell.{
  Content, docs, trace_explorer, studio, api_ref, changelog, home, content, includes,
}
use trace_graph.Site.Docs.{
  active_doc, doc_page, property_of, find_property, or_quickstart, page_with_body, inherited_names,
}
use trace_graph.Site.Docs.Data.{DocPage, quickstart_page, doc_pages}
use trace_graph.Site.Docs.Page.{docs_view, doc_view, docs_frame}
use trace_graph.Site.Labels.{kind_style}
use mathlib.Core.Option
use trace_graph.Site.Labels.Data.{changelog_data}
use trace_graph.Site.Labels.Notes.{changelog_page, release_sections, note_items}
use trace_graph.Site.Explorer.{fork_message}
use trace_graph.Site.Explorer.Data.{Step, steps, node_layout, edges}
use trace_graph.Site.Explorer.GraphView.{trace_graph_svg, edge_nodes, place_at}
use trace_graph.Site.Explorer.Runs.{trace_runs}
use trace_graph.Site.Explorer.Page.{explorer, run_options}
use trace_graph.Site.Studio.Canvas.{studio_graph_svg, canvas_edges}
use trace_graph.Site.Studio.Panel.{props_panel, node_panel}
use trace_graph.Site.Studio.Page.{studio_page, graph_size}
use trace_graph.Site.App.{Engine, Pages, Site, page, app_frame, app}

body_page-HasResult :
    (o : Option DocPage) → HasResult (page_with_body (or_quickstart (property_of false o)))
unfolding page_with_body or_quickstart property_of
body_page-HasResult none = (quickstart_page, refl)
body_page-HasResult (some p) = (p, refl)

docs_view-HasResult :
    (hash : Text) → includes inherited_names (active_doc hash) ≡ false → HasResult (docs_view hash)
unfolding docs_view doc_page find_property
docs_view-HasResult hash h = rw h (
    let found = find (λ p. text_eq p.key (active_doc hash)) doc_pages in
    let (p, e) = body_page-HasResult found in
    >>=-HasResult (page_with_body (or_quickstart (property_of false found)))
      (λ q. some (docs_frame (active_doc hash) (doc_view q))) e
      (docs_frame (active_doc hash) (doc_view p), refl))

fork_message-open :
    (id : Text) (ran : List Step) (active : ℕ) (s : Step)
    → get_elem? ran active ≡ some s
    → HasResult (fork_message id ran active)
unfolding fork_message
fork_message-open id ran active s e = rw (e, fork_message) (_, refl)

pub trace_graph_svg-HasResult : (active : ℕ) → HasResult (trace_graph_svg active)
unfolding trace_graph_svg edge_nodes place_at node_layout edges text_eq codes
trace_graph_svg-HasResult active = (_, refl)

pub studio_graph_svg-HasResult : (active : Text) → HasResult (studio_graph_svg active)
unfolding studio_graph_svg canvas_edges place_at node_layout edges text_eq codes
studio_graph_svg-HasResult active = (_, refl)

explorer-HasResult :
    (engine : Engine) (pages : Pages)
    → IsReady engine pages
    → HasResult (
        explorer engine.percent engine.wide_percent engine.exceeds_zero pages.live pages.active_idx)
unfolding explorer
explorer-HasResult engine pages h =
    let (s, e, i) = h.shown in
    let (runs, f, (options, g)) = h.listed in
    >>=-HasResult (trace_runs _ _ _) _ f (
      >>=-HasResult (run_options runs) _ g (
        >>=-HasResult (trace_graph_svg _) _ (trace_graph_svg-HasResult _).1 (
          >>=-HasResult (get_elem? steps _) _ e (
            >>=-HasResult (fork_message _ steps _) _ (fork_message-open _ steps _ s e).1
              (_, refl)))))

studio_page-HasResult :
    (engine : Engine) (pages : Pages)
    → IsReady engine pages
    → HasResult (studio_page pages.mermaid pages.complexity pages.active_name)
unfolding studio_page props_panel
studio_page-HasResult engine pages h =
    let (n, f, e) = h.known in
    >>=-HasResult (graph_size _) _ h.sized.1 (
      >>=-HasResult (studio_graph_svg _) _ (studio_graph_svg-HasResult _).1
        (>>=-HasResult (props_panel _) _ (ap (Option.map node_panel) f) (_, refl)))

pub page-HasResult :
    (engine : Engine) (hash : Text) (pages : Pages) (c : Content)
    → includes inherited_names (active_doc hash) ≡ false
    → IsReady engine pages
    → HasResult (page engine hash pages c)
unfolding page changelog_page changelog_data release_sections note_items kind_style text_eq codes
page-HasResult engine hash pages docs i h = docs_view-HasResult hash i
page-HasResult engine hash pages trace_explorer i h = explorer-HasResult engine pages h
page-HasResult engine hash pages studio i h = studio_page-HasResult engine pages h
page-HasResult engine hash pages api_ref i h = (_, refl)
page-HasResult engine hash pages changelog i h = (_, refl)
page-HasResult engine hash pages home i h = (_, refl)

pub app-HasResult :
    (engine : Engine) (s : Site)
    → HasResult (page engine s.shell.hash s.pages (content s.shell.route))
    → HasResult (app engine s)
unfolding app
app-HasResult engine s h =
    >>=-HasResult (page engine s.shell.hash s.pages (content s.shell.route))
      (λ n. some (app_frame s.shell.route s.shell.theme n)) h.1 (_, refl)
