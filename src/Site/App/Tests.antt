-- ===== src/Site/App/Tests.antt =====
-- The theorems on the whole site, at a session and at its states.
use trace_graph.Base.{
  strip_prefix, Text, codes, List, [], ◌∷◌, ◌++◌, map, true, false, none, some, ◌≡◌, refl, All,
  decimal, text_eq,
}
use trace_graph.Value.{
  Js, num, str, arr, obj, nil, cons, field, end, truthy, opt_get, field_at, items,
}
use trace_graph.Spa.Steps.{HasResult}
use trace_graph.Site.Markup.{show_alert}
use trace_graph.Site.Markup.Tree.{actions}
use trace_graph.Site.Shell.{Shell, hash_change, theme_button, reload, includes}
use trace_graph.Site.Highlight.{is_line_end}
use trace_graph.Site.Docs.{inherited_names, active_doc}
use trace_graph.Site.Explorer.{graph_node, fork_message}
use trace_graph.Site.Explorer.Data.{steps, execution_id, edges, node_layout}
use trace_graph.Site.Explorer.GraphView.{trace_graph_svg, edge_nodes, place_at}
use trace_graph.Site.Studio.Data.{studio_nodes}
use trace_graph.Site.Studio.Canvas.{studio_graph_svg, canvas_edges}
use trace_graph.Site.Studio.Panel.{props_panel}
use trace_graph.Site.Explorer.Runs.{live_ids, trace_runs}
use trace_graph.Site.Explorer.Page.{explorer, run_options}
use trace_graph.Site.Studio.{canvas_node}
use trace_graph.Site.Studio.Page.{studio_page, stored_complexity, graph_size, mermaid_action}
use trace_graph.Site.App.{
  Engine, Site, SiteEvent, shell_event, explorer_click, studio_pick, runs_reply, complexity_reply,
  mount_site, site_event, run_site, app,
}
use trace_graph.Site.App.Session.{IsShowable}
use trace_graph.Site.App.Session.Renders.{run_site-renders}
use trace_graph.Site.App.Session.Reload.{reload-keeps}
use trace_graph.Site.App.Session.Blank.{IsNoReload, StaysBlank, inherited_names-StaysBlank}
use trace_graph.Site.App.Sound.{IsSound}
use trace_graph.Site.App.Sound.Whole.{app-IsSound}
use trace_graph.Site.App.Clicks.{
  explorer-actions, studio-actions, explorer_action, studio_action, step_clicks, graph_clicks,
  timeline_clicks, offered_picks,
}

abbrev sample_engine : Engine
sample_engine = record {
  percent = λ a b. decimal a;
  wide_percent = λ a b. decimal b;
  exceeds_zero = λ v. false;
}

abbrev two_ids : Js
two_ids = arr (cons (str (codes "r-1")) (cons (str (codes "r-2")) nil))

abbrev counted : Js
counted = obj (
    field (codes "nodeCount") (num 5)
      (field (codes "edgeCount") (num 4) (field (codes "maxDepth") (num 5) end)))

abbrev some_session : List SiteEvent
some_session =
    shell_event (hash_change (codes "#/trace"))
    ∷ runs_reply two_ids
    ∷ explorer_click (graph_node (codes "charge"))
    ∷ shell_event theme_button
    ∷ shell_event (hash_change (codes "#/studio"))
    ∷ complexity_reply (some counted)
    ∷ studio_pick (canvas_node 1)
    ∷ shell_event (hash_change (codes "#/docs/replay"))
    ∷ []

some_session-IsShowable : All (IsShowable sample_engine) some_session
unfolding live_ids trace_runs run_options graph_size stored_complexity truthy opt_get items field_at
    text_eq codes inherited_names active_doc is_line_end includes strip_prefix
some_session-IsShowable =
    (refl, ((_, refl, (_, refl)), (tt, (tt, (refl, ((_, refl), (tt, (refl, tt))))))))

first_address : includes inherited_names (active_doc (codes "#/docs")) ≡ false
unfolding inherited_names active_doc text_eq codes is_line_end includes strip_prefix
first_address = refl

run_site-renders_example :
    (Shell.is_mounted (
        Site.shell
          (run_site sample_engine (mount_site sample_engine (codes "#/docs") none) some_session))
      ≡ true)
    × HasResult (
        app sample_engine
          (run_site sample_engine (mount_site sample_engine (codes "#/docs") none) some_session))
run_site-renders_example =
    run_site-renders sample_engine (codes "#/docs") none some_session first_address
      some_session-IsShowable

-- The site after the session.
abbrev last_site : Site
last_site = run_site sample_engine (mount_site sample_engine (codes "#/docs") none) some_session

reload-keeps_example :
    (Shell.is_mounted (Site.shell (site_event sample_engine last_site (shell_event reload))) ≡ true)
    × (Shell.route (Site.shell (site_event sample_engine last_site (shell_event reload)))
        ≡ Shell.route last_site.shell)
    × (Shell.theme (Site.shell (site_event sample_engine last_site (shell_event reload)))
        ≡ Shell.theme last_site.shell)
    × (Shell.dark_class (Site.shell (site_event sample_engine last_site (shell_event reload)))
        ≡ Shell.dark_class last_site.shell)
reload-keeps_example =
    reload-keeps sample_engine (codes "#/docs") none some_session first_address
      some_session-IsShowable

some_session-IsNoReload : All IsNoReload some_session
some_session-IsNoReload = (tt, (tt, (tt, (tt, (tt, (tt, (tt, (tt, tt))))))))

inherited_names-StaysBlank_example :
    All (StaysBlank sample_engine last_site some_session) inherited_names
inherited_names-StaysBlank_example =
    inherited_names-StaysBlank sample_engine last_site some_session some_session-IsNoReload

-- The page after the session.
rendered : HasResult (app sample_engine last_site)
rendered =
    (run_site-renders sample_engine (codes "#/docs") none some_session first_address
      some_session-IsShowable).1

app-IsSound_example : IsSound rendered.0
app-IsSound_example = app-IsSound sample_engine last_site rendered.0 rendered.1

-- The explorer of two runs with its third step open.
third_step : HasResult (explorer (λ a b. decimal a) (λ a b. decimal b) (λ v. false) two_ids 2)
unfolding trace_runs run_options explorer trace_graph_svg edge_nodes place_at node_layout edges
    steps fork_message text_eq codes items
third_step = (_, refl)

explorer-actions_example :
    (message : Text) × (fork_message execution_id steps 2 ≡ some message)
    × (actions third_step.0
        ≡ show_alert message
          ∷ map (explorer_action 2) (step_clicks ++ (graph_clicks ++ timeline_clicks)))
explorer-actions_example =
    explorer-actions (λ a b. decimal a) (λ a b. decimal b) (λ v. false) two_ids 2 third_step.0
      third_step.1

-- The studio with a text to show and the node "ship" selected.
ship_page : HasResult (studio_page (some (codes "graph TD")) counted (codes "ship"))
unfolding studio_page graph_size studio_graph_svg canvas_edges place_at node_layout edges
    props_panel studio_nodes opt_get field_at truthy text_eq codes
ship_page = (_, refl)

studio-actions_example :
    actions ship_page.0
    ≡ mermaid_action (some (codes "graph TD")) ∷ map (studio_action (codes "ship")) offered_picks
studio-actions_example =
    studio-actions (some (codes "graph TD")) counted (codes "ship") ship_page.0 ship_page.1
