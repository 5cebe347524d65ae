-- ===== src/Site/App/Session.antt =====
-- The states of the site over a session of events, and what they keep.
pub mod Views
pub mod Renders
pub mod Reload
pub mod Blank
use trace_graph.Base.{
  ap, if◌then◌else◌, ℕ, Text, codes, text_eq, List, [], ◌∷◌, Option, none, some, Bool, true, false,
  ◌≡◌, refl, All, get_elem?, if◌then◌else◌,
}
use trace_graph.Value.{Js, truthy}
use trace_graph.Spa.Steps.{HasResult, >>=-HasResult}
use trace_graph.Site.Markup.{Node}
use trace_graph.Site.Shell.{
  Shell, Content, docs, trace_explorer, studio, api_ref, changelog, home, content, Event,
  hash_change, theme_button, scroll_down, reload, handle, includes,
}
use trace_graph.Site.Docs.{active_doc, inherited_names}
use trace_graph.Site.Docs.Data.{DocPage, quickstart_page}
use trace_graph.Site.Docs.Page.{docs_view}
use trace_graph.Site.Labels.{kind_style}
use mathlib.Core.Option
use trace_graph.Site.Labels.Data.{changelog_data}
use trace_graph.Site.Labels.Notes.{changelog_page, release_sections, note_items}
use trace_graph.Site.Explorer.{fork_message}
use trace_graph.Site.Explorer.Selection.{IsIndexed, IsShown, click-IsShown}
use trace_graph.Site.Explorer.Data.{
  Step, validate_step, enrich_step, score_step, charge_step, ship_step, steps, node_layout,
  trace_list, edges,
}
use trace_graph.Site.Explorer.GraphView.{trace_graph_svg, edge_nodes, place_at}
use trace_graph.Site.Explorer.Runs.{RunView, trace_runs, live_ids, stores, store_ids}
use trace_graph.Site.Explorer.Page.{explorer, run_options}
use trace_graph.Site.Studio.Data.{studio_nodes}
use trace_graph.Site.Studio.Canvas.{studio_graph_svg, canvas_edges}
use trace_graph.Site.Studio.Panel.{props_panel, node_panel}
use trace_graph.Site.Studio.Page.{studio_page, graph_size, stored_complexity}
use trace_graph.Site.Studio.Selection.{IsKnown, pick-IsKnown, layout-IsKnown, charge_IsKnown}
use trace_graph.Site.App.{
  Engine, Pages, initial_pages, Site, page, app_frame, app, SiteEvent, shell_event, explorer_click,
  studio_pick, runs_reply, mermaid_reply, complexity_reply, pages_after, pages_event, site_event,
  mount_site, run_site,
}

-- The stored answer of the server makes a list of runs that can be shown.
abbrev pub Lists : Engine → Js → Type 0
Lists engine v =
    (runs : List RunView) × (trace_runs engine.exceeds_zero trace_list v ≡ some runs)
    × ((options : List Node) × (run_options runs ≡ some options))

-- The size of the graph can be shown.
abbrev pub HasSize : Js → Type 0
HasSize complexity = (n : Node) × (graph_size complexity ≡ some n)

-- What the states of the pages keep: a step is open, a node is selected, and what the server
-- answered can be shown.
pub record IsReady (engine : Engine) (pages : Pages) : Type 0 where
  pub shown : IsShown steps pages.active_idx
  pub known : IsKnown studio_nodes pages.active_name
  pub listed : Lists engine pages.live
  pub sized : HasSize pages.complexity

-- A reply that can be shown; an address must not ask the docs for a name that every object
-- inherits.
abbrev pub IsShowable : Engine → SiteEvent → Type 0
IsShowable engine (shell_event (hash_change h)) = includes inherited_names (active_doc h) ≡ false
IsShowable engine (runs_reply d) = Lists engine (live_ids d)
IsShowable engine (complexity_reply r) = HasSize (stored_complexity r)
IsShowable engine _ = Unit

pub initial-IsReady : (engine : Engine) → IsReady engine initial_pages
unfolding initial_pages steps trace_runs run_options graph_size trace_list truthy
initial-IsReady engine = record {
  shown = (_, refl, refl);
  known = charge_IsKnown;
  listed = (_, refl, (_, refl));
  sized = (_, refl);
}

either-IsReady :
    (engine : Engine) (b : Bool) (pages other : Pages)
    → IsReady engine pages
    → IsReady engine other
    → IsReady engine (if b then pages else other)
either-IsReady engine true pages other h g = h
either-IsReady engine false pages other h g = g

steps-IsIndexed : IsIndexed 0 steps
unfolding steps validate_step enrich_step score_step charge_step ship_step
steps-IsIndexed = (refl, (refl, (refl, (refl, (refl, tt)))))

either-Lists :
    (engine : Engine) (b : Bool) (v before : Js)
    → Lists engine v
    → Lists engine before
    → Lists engine (if b then v else before)
either-Lists engine true v before h g = h
either-Lists engine false v before h g = g

pub pages_event-IsReady :
    (engine : Engine) (route : Text) (pages : Pages) (e : SiteEvent)
    → IsShowable engine e
    → IsReady engine pages
    → IsReady engine (pages_event route pages e)
unfolding pages_event
pages_event-IsReady engine route pages (shell_event e) g h = h
pages_event-IsReady engine route pages (explorer_click c) g h =
    either-IsReady engine _ _ _
      (record {
        shown = click-IsShown steps pages.active_idx c steps-IsIndexed h.shown;
        known = h.known;
        listed = h.listed;
        sized = h.sized;
      })
      h
pages_event-IsReady engine route pages (studio_pick p) g h =
    either-IsReady engine _ _ _
      (record {
        shown = h.shown;
        known = pick-IsKnown studio_nodes node_layout pages.active_name p layout-IsKnown h.known;
        listed = h.listed;
        sized = h.sized;
      })
      h
pages_event-IsReady engine route pages (runs_reply d) g h =
    either-IsReady engine _ _ _
      (record {
        shown = h.shown;
        known = h.known;
        listed =
            unfold store_ids in either-Lists engine (stores d) (live_ids d) pages.live g h.listed;
        sized = h.sized;
      })
      h
pages_event-IsReady engine route pages (mermaid_reply r) g h =
    either-IsReady engine _ _ _
      (record { shown = h.shown; known = h.known; listed = h.listed; sized = h.sized }) h
pages_event-IsReady engine route pages (complexity_reply r) g h =
    either-IsReady engine _ _ _
      (record { shown = h.shown; known = h.known; listed = h.listed; sized = g }) h

pub pages_after-IsReady :
    (engine : Engine) (before after : Shell) (e : Event) (pages : Pages)
    → IsReady engine pages
    → IsReady engine (pages_after before after e pages)
unfolding pages_after
pages_after-IsReady engine before after reload pages h = initial-IsReady engine
pages_after-IsReady engine before after (hash_change a) pages h =
    either-IsReady engine _ _ _ h (initial-IsReady engine)
pages_after-IsReady engine before after theme_button pages h = h
pages_after-IsReady engine before after scroll_down pages h = h
