-- ===== src/Site/App/Session/Reload.antt =====
-- What a reload keeps of the site.
use trace_graph.Base.{if◌then◌else◌, refl, Text, List, [], ◌∷◌, Option, Bool, true, false, ◌≡◌, All}
use trace_graph.Site.Shell.{Shell, reload, handle, mount, commit_theme}
use trace_graph.Site.Shell.Session.{
  IsConsistent, Follows, handle-IsConsistent, mount-IsConsistent, reload_consistent,
}
use trace_graph.Site.Docs.{active_doc, inherited_names}
use trace_graph.Site.Shell.{includes}
use trace_graph.Site.App.{
  Engine, Pages, Site, SiteEvent, shell_event, explorer_click, studio_pick, runs_reply,
  mermaid_reply, complexity_reply, renders, tried, set_pages, site_event, mount_site, run_site,
}
use trace_graph.Site.App.Session.{IsShowable}
use trace_graph.Site.App.Session.Renders.{IsUp, site_event-IsUp, run_site-IsUp, mount_site-IsUp}

set_pages-Follows :
    (engine : Engine) (b : Bool) (s : Site) (p : Pages)
    → s.shell.is_mounted ≡ b
    → Follows s.shell
    → Follows (Site.shell (if b then set_pages engine s p else s))
unfolding set_pages
set_pages-Follows engine true s p e c = λ up. record {
  routed = (c e).routed;
  saved = (c e).saved;
  dark = (c e).dark;
  themed = (c e).themed;
}
set_pages-Follows engine false s p e c = c

site_event-Follows :
    (engine : Engine) (s : Site) (e : SiteEvent)
    → Follows s.shell
    → Follows (Site.shell (site_event engine s e))
unfolding site_event
site_event-Follows engine s (shell_event e) c =
    handle-IsConsistent (renders engine (tried s e)) s.shell e c
site_event-Follows engine s (explorer_click k) c =
    set_pages-Follows engine s.shell.is_mounted s _ refl c
site_event-Follows engine s (studio_pick p) c =
    set_pages-Follows engine s.shell.is_mounted s _ refl c
site_event-Follows engine s (runs_reply d) c =
    set_pages-Follows engine s.shell.is_mounted s _ refl c
site_event-Follows engine s (mermaid_reply r) c =
    set_pages-Follows engine s.shell.is_mounted s _ refl c
site_event-Follows engine s (complexity_reply r) c =
    set_pages-Follows engine s.shell.is_mounted s _ refl c

run_site-Follows :
    (engine : Engine) (es : List SiteEvent) (s : Site)
    → Follows s.shell
    → Follows (Site.shell (run_site engine s es))
unfolding run_site
run_site-Follows engine [] s c = c
run_site-Follows engine (e ∷ es) s c =
    run_site-Follows engine es (site_event engine s e) (site_event-Follows engine s e c)

-- A reload that mounts the shell keeps it.
mounted_again :
    (b : Bool) (s : Shell)
    → IsConsistent s
    → Shell.is_mounted (handle b s reload) ≡ true
    → ((handle b s reload).route ≡ s.route)
      × ((handle b s reload).theme ≡ s.theme)
      × ((handle b s reload).dark_class ≡ s.dark_class)
unfolding handle mount commit_theme
mounted_again true s c e = reload_consistent c
mounted_again false s c e = cc

kept :
    (engine : Engine) (s : Site)
    → IsUp engine s
    → Follows s.shell
    → (Shell.is_mounted (Site.shell (site_event engine s (shell_event reload))) ≡ true)
      × (Shell.route (Site.shell (site_event engine s (shell_event reload))) ≡ Shell.route s.shell)
      × (Shell.theme (Site.shell (site_event engine s (shell_event reload))) ≡ Shell.theme s.shell)
      × (Shell.dark_class (Site.shell (site_event engine s (shell_event reload)))
          ≡ Shell.dark_class s.shell)
unfolding site_event
kept engine s u c = (again, parts.0, parts.1, parts.2)
  where
    again : Shell.is_mounted (Site.shell (site_event engine s (shell_event reload))) ≡ true
    again = (site_event-IsUp engine s (shell_event reload) tt u).mounted

    parts :
        ((handle (renders engine (tried s reload)) s.shell reload).route ≡ Shell.route s.shell)
        × ((handle (renders engine (tried s reload)) s.shell reload).theme ≡ Shell.theme s.shell)
        × ((handle (renders engine (tried s reload)) s.shell reload).dark_class
            ≡ Shell.dark_class s.shell)
    parts = mounted_again (renders engine (tried s reload)) s.shell (c u.mounted) again

-- In every session from any address and any stored theme: a reload mounts the site again, with the
-- page, the theme and the class of the document that it had. The replies must be such that the list
-- of runs and the size of the graph can be shown, and no address of the session may ask the docs
-- for a name that every object inherits.
pub reload-keeps :
    (engine : Engine) (hash : Text) (stored : Option Text) (es : List SiteEvent)
    → includes inherited_names (active_doc hash) ≡ false
    → All (IsShowable engine) es
    → (Shell.is_mounted (
          Site.shell (
            site_event engine
              (run_site engine (mount_site engine hash stored) es)
              (shell_event reload)))
        ≡ true)
      × (Shell.route (
            Site.shell (
              site_event engine
                (run_site engine (mount_site engine hash stored) es)
                (shell_event reload)))
          ≡ Shell.route (Site.shell (run_site engine (mount_site engine hash stored) es)))
      × (Shell.theme (
            Site.shell (
              site_event engine
                (run_site engine (mount_site engine hash stored) es)
                (shell_event reload)))
          ≡ Shell.theme (Site.shell (run_site engine (mount_site engine hash stored) es)))
      × (Shell.dark_class (
            Site.shell (
              site_event engine
                (run_site engine (mount_site engine hash stored) es)
                (shell_event reload)))
          ≡ Shell.dark_class (Site.shell (run_site engine (mount_site engine hash stored) es)))
reload-keeps engine hash stored es i g =
    kept engine (run_site engine (mount_site engine hash stored) es)
      (run_site-IsUp engine es (mount_site engine hash stored) g
        (mount_site-IsUp engine hash stored i))
      (run_site-Follows engine es (mount_site engine hash stored)
        (unfold mount_site in mount-IsConsistent _ hash stored))
