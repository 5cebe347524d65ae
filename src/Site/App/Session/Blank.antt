-- ===== src/Site/App/Session/Blank.antt =====
-- The sessions that leave the site blank.
use trace_graph.Base.{
  Text, codes, text_eq, strip_prefix, split_head, List, [], ◌∷◌, ◌++◌, Bool, true, false, none, ◌≡◌,
  refl, All, if◌then◌else◌,
}
use trace_graph.Site.Highlight.{is_line_end}
use trace_graph.Site.Shell.{
  Shell, hash_change, theme_button, scroll_down, reload, handle, content, parse_route, drop_leading,
  route_of_path, known_or_home,
}
use trace_graph.Site.Docs.{active_doc, docs_match, inherited_names, doc_page, find_property}
use trace_graph.Site.Docs.Data.{doc_pages}
use trace_graph.Site.Docs.Page.{docs_view}
use trace_graph.Site.App.{
  Engine, Site, SiteEvent, shell_event, explorer_click, studio_pick, runs_reply, mermaid_reply,
  complexity_reply, is_some, page, app, renders, tried, site_event, run_site,
}
use trace_graph.Site.App.Session.Renders.{chosen}

-- Any event but a reload of the window.
abbrev pub IsNoReload : SiteEvent → Type 0
IsNoReload (shell_event reload) = ⊥
IsNoReload _ = Unit

chosen_not :
    {A : Type 0} (P : A → Type 0) (b : Bool) (x y : A) → b ≡ false → P y → P (if b then x else y)
chosen_not P true x y e h = cc
chosen_not P false x y e h = h

unmounted :
    (engine : Engine) (s : Site) (e : SiteEvent)
    → s.shell.is_mounted ≡ false
    → IsNoReload e
    → Shell.is_mounted (Site.shell (site_event engine s e)) ≡ false
unfolding site_event handle
unmounted engine s (shell_event (hash_change h)) e n =
    chosen_not (λ x. Shell.is_mounted x ≡ false) s.shell.is_mounted _ _ e e
unmounted engine s (shell_event theme_button) e n =
    chosen_not (λ x. Shell.is_mounted x ≡ false) s.shell.is_mounted _ _ e e
unmounted engine s (shell_event scroll_down) e n = e
unmounted engine s (shell_event reload) e n = absurd n
unmounted engine s (explorer_click c) e n =
    chosen_not (λ x. Shell.is_mounted (Site.shell x) ≡ false) s.shell.is_mounted _ _ e e
unmounted engine s (studio_pick c) e n =
    chosen_not (λ x. Shell.is_mounted (Site.shell x) ≡ false) s.shell.is_mounted _ _ e e
unmounted engine s (runs_reply c) e n =
    chosen_not (λ x. Shell.is_mounted (Site.shell x) ≡ false) s.shell.is_mounted _ _ e e
unmounted engine s (mermaid_reply c) e n =
    chosen_not (λ x. Shell.is_mounted (Site.shell x) ≡ false) s.shell.is_mounted _ _ e e
unmounted engine s (complexity_reply c) e n =
    chosen_not (λ x. Shell.is_mounted (Site.shell x) ≡ false) s.shell.is_mounted _ _ e e

run_site-unmounted :
    (engine : Engine) (es : List SiteEvent) (s : Site)
    → s.shell.is_mounted ≡ false
    → All IsNoReload es
    → Shell.is_mounted (Site.shell (run_site engine s es)) ≡ false
unfolding run_site
run_site-unmounted engine [] s e n = e
run_site-unmounted engine (x ∷ es) s e (n, ns) =
    run_site-unmounted engine es (site_event engine s x) (unmounted engine s x e n) ns

app-blank :
    (engine : Engine) (s : Site) (h : Text)
    → s.shell.hash ≡ h
    → s.shell.route ≡ codes "docs"
    → docs_view h ≡ none
    → renders engine s ≡ false
unfolding renders is_some app page content text_eq codes
app-blank engine s h e r d = rw r (rw e (rw d refl))

-- The address opens the docs, where the view fails.
abbrev Fails : Text → Type 0
Fails n =
    (parse_route (codes "#/docs/" ++ n) ≡ codes "docs") × (docs_view (codes "#/docs/" ++ n) ≡ none)

inherited_names-Fail : All Fails inherited_names
unfolding inherited_names parse_route split_head is_line_end drop_leading route_of_path
    known_or_home active_doc docs_match docs_view doc_page find_property doc_pages codes text_eq
    strip_prefix
inherited_names-Fail = (
  (refl, refl),
  (
    (refl, refl),
    (
      (refl, refl),
      (
        (refl, refl),
        (
          (refl, refl),
          (
            (refl, refl),
            (
              (refl, refl),
              ((refl, refl), ((refl, refl), ((refl, refl), ((refl, refl), ((refl, refl), tt))))),
            ),
          ),
        ),
      ),
    ),
  ),
)

either_way :
    {A : Type 0} (P : A → Type 0) (b : Bool) (x y : A)
    → (b ≡ true → P x)
    → (b ≡ false → P y)
    → P (if b then x else y)
either_way P true x y f g = f refl
either_way P false x y f g = g refl

hash_change-blank :
    (engine : Engine) (s : Site) (h : Text)
    → parse_route h ≡ codes "docs"
    → docs_view h ≡ none
    → Shell.is_mounted (Site.shell (site_event engine s (shell_event (hash_change h)))) ≡ false
unfolding site_event handle tried
hash_change-blank engine s h r d =
    either_way (λ x. Shell.is_mounted x ≡ false) s.shell.is_mounted _ _
      (λ e.
        app-blank engine (tried s (hash_change h)) h
          (chosen (λ x. Shell.hash x ≡ h) s.shell.is_mounted _ _ e refl)
          (chosen (λ x. Shell.route x ≡ codes "docs") s.shell.is_mounted _ _ e r) d)
      (λ e. e)

-- The site stays blank after the address, until it is loaded again.
abbrev pub StaysBlank : Engine → Site → List SiteEvent → Text → Type 0
StaysBlank engine s es n =
    Shell.is_mounted (
      Site.shell (
        run_site engine (site_event engine s (shell_event (hash_change (codes "#/docs/" ++ n))))
          es))
    ≡ false

all_blank :
    (engine : Engine) (s : Site) (es : List SiteEvent) (ns : List Text)
    → All IsNoReload es
    → All Fails ns
    → All (StaysBlank engine s es) ns
all_blank engine s es [] r h = tt
all_blank engine s es (n ∷ ns) r ((p, d), h) = (
  run_site-unmounted engine es _ (hash_change-blank engine s (codes "#/docs/" ++ n) p d) r,
  all_blank engine s es ns r h,
)

-- In any state of the site, for each name that objects inherit: the address `#/docs/` with that
-- name unmounts the site, and whatever follows, short of a reload of the window, leaves it blank.
pub inherited_names-StaysBlank :
    (engine : Engine) (s : Site) (es : List SiteEvent)
    → All IsNoReload es
    → All (StaysBlank engine s es) inherited_names
inherited_names-StaysBlank engine s es r =
    all_blank engine s es inherited_names r inherited_names-Fail
