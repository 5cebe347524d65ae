-- ===== src/Site/App/Session/Renders.antt =====
-- The site renders after every session of events.
use trace_graph.Site.App.Session.{
  IsReady, IsShowable, initial-IsReady, pages_event-IsReady, pages_after-IsReady,
}
use trace_graph.Base.{
  if◌then◌else◌, Bool, true, [], ◌∷◌, ◌∙◌, sym, Text, List, Option, false, ◌≡◌, refl, All,
}
use trace_graph.Spa.Steps.{HasResult}
use trace_graph.Site.Shell.{
  Event, hash_change, theme_button, scroll_down, reload, handle, mount, first_render, commit_theme,
  theme_effect, Shell, includes,
}
use trace_graph.Site.Docs.{active_doc, inherited_names}
use trace_graph.Site.App.{
  Engine, Pages, Site, app, SiteEvent, shell_event, explorer_click, studio_pick, runs_reply,
  mermaid_reply, complexity_reply, pages_after, is_some, renders, tried, set_pages, site_event,
  first_site, mount_site, run_site,
}
use trace_graph.Site.App.Session.Views.{page-HasResult, app-HasResult}

renders-eq : (engine : Engine) (s : Site) → HasResult (app engine s) → renders engine s ≡ true
unfolding renders is_some
renders-eq engine s (n, e) = rw e refl

-- The root is mounted, the address asks the docs for no inherited name, and the pages are ready.
pub record IsUp (engine : Engine) (s : Site) : Type 0 where
  pub mounted : Shell.is_mounted s.shell ≡ true
  pub addressed : includes inherited_names (active_doc (Shell.hash s.shell)) ≡ false
  pub ready : IsReady engine s.pages

IsUp-renders :
    (engine : Engine) (s : Site)
    → includes inherited_names (active_doc (Shell.hash s.shell)) ≡ false
    → IsReady engine s.pages
    → renders engine s ≡ true
IsUp-renders engine s i h =
    renders-eq engine s (app-HasResult engine s (page-HasResult engine _ _ _ i h))

pub chosen :
    {A : Type 0} (P : A → Type 0) (b : Bool) (x y : A) → b ≡ true → P x → P (if b then x else y)
chosen P true x y e h = h
chosen P false x y e h = cc

set_pages-IsUp :
    (engine : Engine) (s : Site) (p : Pages)
    → IsUp engine s
    → IsReady engine p
    → IsUp engine (if s.shell.is_mounted then set_pages engine s p else s)
unfolding set_pages
set_pages-IsUp engine s p u h =
    chosen (IsUp engine) s.shell.is_mounted (set_pages engine s p) s u.mounted (record {
      mounted = IsUp-renders engine (record s { pages = p }) u.addressed h;
      addressed = u.addressed;
      ready = h;
    })

-- A mounted root at an address without an inherited name.
abbrev IsPlaced : Bool → Shell → Type 0
IsPlaced commits s =
    (Shell.is_mounted s ≡ commits) × (includes inherited_names (active_doc (Shell.hash s)) ≡ false)

commit_theme-IsPlaced :
    (commits : Bool) (s : Shell) → IsPlaced true s → IsPlaced commits (commit_theme commits s)
unfolding commit_theme theme_effect
commit_theme-IsPlaced true s h = h
commit_theme-IsPlaced false s h = (refl, h.1)

handle-IsPlaced :
    (engine : Engine) (commits : Bool) (s : Shell) (e : Event)
    → IsShowable engine (shell_event e)
    → IsPlaced true s
    → commits ≡ true
    → IsPlaced commits (handle commits s e)
unfolding handle mount first_render
handle-IsPlaced engine commits s (hash_change h) g p c =
    chosen (IsPlaced commits) s.is_mounted _ _ p.0 (refl, g)
handle-IsPlaced engine commits s theme_button g p c =
    chosen (IsPlaced commits) s.is_mounted _ _ p.0 (commit_theme-IsPlaced commits _ p)
handle-IsPlaced engine commits s scroll_down g p c = (p.0 ∙ sym c, p.1)
handle-IsPlaced engine commits s reload g p c = commit_theme-IsPlaced commits _ (refl, p.1)

shell_event-IsUp :
    (engine : Engine) (s : Site) (e : Event)
    → IsShowable engine (shell_event e)
    → IsUp engine s
    → IsUp engine (site_event engine s (shell_event e))
unfolding site_event tried
shell_event-IsUp engine s e g u = record {
  mounted = placed.0 ∙ commits;
  addressed = placed.1;
  ready = ready;
}
  where
    ready : IsReady engine (pages_after s.shell (handle true s.shell e) e s.pages)
    ready = pages_after-IsReady engine s.shell (handle true s.shell e) e s.pages u.ready

    commits : renders engine (tried s e) ≡ true
    commits =
        IsUp-renders engine (tried s e)
          (handle-IsPlaced engine true s.shell e g (u.mounted, u.addressed) refl).1 ready

    placed : IsPlaced (renders engine (tried s e)) (handle (renders engine (tried s e)) s.shell e)
    placed =
        handle-IsPlaced engine (renders engine (tried s e)) s.shell e g (u.mounted, u.addressed)
          commits

pub site_event-IsUp :
    (engine : Engine) (s : Site) (e : SiteEvent)
    → IsShowable engine e
    → IsUp engine s
    → IsUp engine (site_event engine s e)
site_event-IsUp engine s (shell_event e) g u = shell_event-IsUp engine s e g u
site_event-IsUp engine s (explorer_click c) g u =
    unfold site_event in
    set_pages-IsUp engine s _ u (pages_event-IsReady engine _ s.pages (explorer_click c) g u.ready)
site_event-IsUp engine s (studio_pick p) g u =
    unfold site_event in
    set_pages-IsUp engine s _ u (pages_event-IsReady engine _ s.pages (studio_pick p) g u.ready)
site_event-IsUp engine s (runs_reply d) g u =
    unfold site_event in
    set_pages-IsUp engine s _ u (pages_event-IsReady engine _ s.pages (runs_reply d) g u.ready)
site_event-IsUp engine s (mermaid_reply r) g u =
    unfold site_event in
    set_pages-IsUp engine s _ u (pages_event-IsReady engine _ s.pages (mermaid_reply r) g u.ready)
site_event-IsUp engine s (complexity_reply r) g u =
    unfold site_event in
    set_pages-IsUp engine s _ u
      (pages_event-IsReady engine _ s.pages (complexity_reply r) g u.ready)

pub run_site-IsUp :
    (engine : Engine) (es : List SiteEvent) (s : Site)
    → All (IsShowable engine) es
    → IsUp engine s
    → IsUp engine (run_site engine s es)
unfolding run_site
run_site-IsUp engine [] s g u = u
run_site-IsUp engine (e ∷ es) s (a, g) u =
    run_site-IsUp engine es (site_event engine s e) g (site_event-IsUp engine s e a u)

pub mount_site-IsUp :
    (engine : Engine) (hash : Text) (stored : Option Text)
    → includes inherited_names (active_doc hash) ≡ false
    → IsUp engine (mount_site engine hash stored)
unfolding mount_site first_site mount first_render
mount_site-IsUp engine hash stored i = record {
  mounted = placed.0 ∙ commits;
  addressed = placed.1;
  ready = initial-IsReady engine;
}
  where
    commits : renders engine (first_site hash stored) ≡ true
    commits = IsUp-renders engine (first_site hash stored) i (initial-IsReady engine)

    placed :
        IsPlaced
          (renders engine (first_site hash stored))
          (commit_theme (renders engine (first_site hash stored)) (first_render hash stored))
    placed = commit_theme-IsPlaced _ (first_render hash stored) (refl, i)

-- In every session of events in the shell, clicks in the pages and replies of the server, from any
-- address and any stored theme, the root stays mounted and the site renders: no page reads a step,
-- a node or a place that is missing. The replies must be such that the list of runs and the size
-- of the graph can be shown, and no address of the session may ask the docs for a name that every
-- object inherits.
pub run_site-renders :
    (engine : Engine) (hash : Text) (stored : Option Text) (es : List SiteEvent)
    → includes inherited_names (active_doc hash) ≡ false
    → All (IsShowable engine) es
    → (Shell.is_mounted (Site.shell (run_site engine (mount_site engine hash stored) es)) ≡ true)
      × HasResult (app engine (run_site engine (mount_site engine hash stored) es))
run_site-renders engine hash stored es i g = (
  up.mounted,
  app-HasResult engine (run_site engine (mount_site engine hash stored) es)
      (page-HasResult engine _ _ _ up.addressed up.ready),
)
  where
    up : IsUp engine (run_site engine (mount_site engine hash stored) es)
    up =
        run_site-IsUp engine es (mount_site engine hash stored) g
          (mount_site-IsUp engine hash stored i)
