-- ===== src/Site/App.antt =====
-- `App` of app.jsx: the page of the route between the header and the footer, with the states that
-- the pages keep.
pub mod Plain
pub mod Session
pub mod Sound
pub mod Clicks
mod Tests
use trace_graph.Base.{
  ℕ, Text, codes, text_eq, List, [], ◌∷◌, Option, none, some, if◌then◌else◌, Bool, true, false,
}
use trace_graph.Value.{Js, null, arr, nil}
use trace_graph.Spa.Steps.{◌>>=◌}
use trace_graph.Site.Markup.{div_tag, main_tag, class_name, Node, el}
use trace_graph.Site.Shell.{
  Shell, Content, docs, trace_explorer, studio, api_ref, changelog, home, content, show_footer,
  Event, hash_change, theme_button, scroll_down, reload, handle, first_render, mount,
}
use trace_graph.Site.Header.{header}
use trace_graph.Site.Footer.{footer}
use trace_graph.Site.Home.{home_page}
use trace_graph.Site.Labels.Api
use trace_graph.Site.Labels.Notes.{changelog_page}
use trace_graph.Site.Docs.Page.{docs_view}
use trace_graph.Site.Explorer.{Click, click}
use trace_graph.Site.Explorer.Data.{steps, node_layout}
use trace_graph.Site.Explorer.Runs.{store_ids}
use trace_graph.Site.Explorer.Page.{explorer}
use trace_graph.Site.Studio.{Pick, pick}
use trace_graph.Site.Studio.Data.{studio_nodes}
use trace_graph.Site.Studio.Page.{studio_page, stored_mermaid, stored_complexity}

-- What the site takes from the language: the texts of `(a / b) * 100` and of
-- `Math.max((a / b) * 100, 3)`, and `v > 0` on any value.
pub record Engine : Type 0 where
  pub percent : ℕ → ℕ → Text
  pub wide_percent : ℕ → ℕ → Text
  pub exceeds_zero : Js → Bool

-- The states of `TraceExplorer` and of `Studio`.
pub record Pages : Type 0 where
  pub active_idx : ℕ
  pub live : Js
  pub active_name : Text
  pub mermaid : Option Text
  pub complexity : Js

unfoldable pub initial_pages : Pages
initial_pages = record {
  active_idx = 0;
  live = arr nil;
  active_name = codes "charge";
  mermaid = none;
  complexity = null;
}

pub record Site : Type 0 where
  pub shell : Shell
  pub pages : Pages

unfoldable pub page : Engine → Text → Pages → Content → Option Node
unfolding docs_view explorer studio_page Api.api_ref changelog_page home_page
page engine hash pages docs = docs_view hash
page engine hash pages trace_explorer =
    explorer engine.percent engine.wide_percent engine.exceeds_zero pages.live pages.active_idx
page engine hash pages studio = studio_page pages.mermaid pages.complexity pages.active_name
page engine hash pages api_ref = some Api.api_ref
page engine hash pages changelog = changelog_page
page engine hash pages home = some home_page

-- `showFooter && <Footer />`
unfoldable pub footer_if : Bool → List Node
unfolding footer
footer_if true = footer ∷ []
footer_if false = []

-- Whether there is a value.
unfoldable pub is_some {ℓ} : {A : Type ℓ} → Option A → Bool
is_some none = false
is_some (some a) = true

-- The header, the page and, on some routes, the footer.
unfoldable pub app_frame : (route theme : Text) → Node → Node
unfolding header footer_if show_footer
app_frame route theme main_page =
    el div_tag (class_name (codes "min-h-screen flex flex-col") ∷ []) (
      header route theme
      ∷ el main_tag (class_name (codes "flex-1") ∷ []) (main_page ∷ [])
      ∷ footer_if (show_footer route))

-- `App`; `none` is an error of the render.
unfoldable pub app : Engine → Site → Option Node
unfolding page app_frame content
app engine s = do
  main_page ← page engine s.shell.hash s.pages (content s.shell.route)
  some (app_frame s.shell.route s.shell.theme main_page)

-- An event of the shell, a click in the page, or the reply to a request of the page.
pub data SiteEvent : Type 0 where
  shell_event : Event → SiteEvent
  explorer_click : Click → SiteEvent
  studio_pick : Pick → SiteEvent
  runs_reply : Js → SiteEvent
  mermaid_reply : Option Text → SiteEvent
  complexity_reply : Option Js → SiteEvent

-- A page that stays keeps its state; a page that is left loses it, as all do on a reload.
unfoldable pub pages_after : Shell → Shell → Event → Pages → Pages
pages_after before after reload pages = initial_pages
pages_after before after (hash_change h) pages =
    if text_eq before.route after.route then pages else initial_pages
pages_after before after theme_button pages = pages
pages_after before after scroll_down pages = pages

-- What changes in the page, where its route is shown.
unfoldable pub pages_event : Text → Pages → SiteEvent → Pages
unfolding click pick store_ids stored_mermaid stored_complexity
pages_event route pages (shell_event e) = pages
pages_event route pages (explorer_click c) =
    if text_eq route (codes "trace")
    then record pages { active_idx = click steps pages.active_idx c }
    else pages
pages_event route pages (studio_pick p) =
    if text_eq route (codes "studio")
    then record pages { active_name = pick studio_nodes node_layout pages.active_name p }
    else pages
pages_event route pages (runs_reply d) =
    if text_eq route (codes "trace") then record pages { live = store_ids pages.live d } else pages
pages_event route pages (mermaid_reply r) =
    if text_eq route (codes "studio") then record pages { mermaid = stored_mermaid r } else pages
pages_event route pages (complexity_reply r) =
    if text_eq route (codes "studio")
    then record pages { complexity = stored_complexity r }
    else pages

-- Whether the render of a state commits.
unfoldable pub renders : Engine → Site → Bool
unfolding app
renders engine s = is_some (app engine s)

-- The states before the render that an event of the shell leads to.
unfoldable pub tried : Site → Event → Site
unfolding handle pages_after
tried s e = record {
  shell = handle true s.shell e;
  pages = pages_after s.shell (handle true s.shell e) e s.pages;
}

-- New states of the pages, and the render that they lead to.
unfoldable pub set_pages : Engine → Site → Pages → Site
unfolding renders
set_pages engine s p = record {
  shell = record s.shell { is_mounted = renders engine (record s { pages = p }) };
  pages = p;
}

unfoldable pub site_event : Engine → Site → SiteEvent → Site
unfolding handle tried renders set_pages pages_event
site_event engine s (shell_event e) = record {
  shell = handle (renders engine (tried s e)) s.shell e;
  pages = (tried s e).pages;
}
site_event engine s e =
    if s.shell.is_mounted then set_pages engine s (pages_event s.shell.route s.pages e) else s

unfoldable pub first_site : Text → Option Text → Site
unfolding first_render initial_pages
first_site hash stored = record { shell = first_render hash stored; pages = initial_pages }

unfoldable pub mount_site : Engine → Text → Option Text → Site
unfolding mount first_site renders
mount_site engine hash stored = record {
  shell = mount (renders engine (first_site hash stored)) hash stored;
  pages = initial_pages;
}

unfoldable pub run_site : Engine → Site → List SiteEvent → Site
unfolding site_event
run_site engine s [] = s
run_site engine s (e ∷ es) = run_site engine (site_event engine s e) es
