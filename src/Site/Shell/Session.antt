-- ===== src/Site/Shell/Session.antt =====
-- The invariant of the shell over a session of events, and what a reload keeps.
use trace_graph.Base.{
  Bool, true, false, Text, codes, text_eq, List, [], ◌∷◌, sym, Option, none, some, ◌≡◌, ◌≢◌, refl,
  arith,
}
use trace_graph.Site.Shell.{
  parse_route, Shell, initial_theme, theme_effect, first_render, commit_theme, mount, other_theme,
  Event, hash_change, theme_button, scroll_down, reload, handle, run,
}

-- What the shell keeps between events.
pub record IsConsistent (s : Shell) : Type 0 where
  pub routed : s.route ≡ parse_route s.hash
  pub saved : s.stored ≡ some s.theme
  pub dark : s.dark_class ≡ text_eq s.theme (codes "dark")
  pub themed : s.theme ≢ []

initial_theme-ne-nil : (o : Option Text) → initial_theme o ≢ []
unfolding initial_theme codes
initial_theme-ne-nil none = λ e. cc
initial_theme-ne-nil (some []) = λ e. cc
initial_theme-ne-nil (some (c ∷ s)) = λ e. cc

commit_theme-IsConsistent :
    (commits : Bool) (s : Shell)
    → s.route ≡ parse_route s.hash
    → s.theme ≢ []
    → Shell.is_mounted (commit_theme commits s) ≡ true
    → IsConsistent (commit_theme commits s)
unfolding commit_theme theme_effect
commit_theme-IsConsistent true s r t h = record {
  routed = r;
  saved = refl;
  dark = refl;
  themed = t;
}
commit_theme-IsConsistent false s r t h = cc

pub mount-IsConsistent :
    (commits : Bool) (hash : Text) (stored : Option Text)
    → Shell.is_mounted (mount commits hash stored) ≡ true
    → IsConsistent (mount commits hash stored)
unfolding mount first_render
mount-IsConsistent commits hash stored h =
    commit_theme-IsConsistent commits (first_render hash stored) refl (initial_theme-ne-nil stored)
      h

other_theme-ne-nil : (t : Text) → other_theme t ≢ []
unfolding other_theme codes
other_theme-ne-nil t = ground arith

-- The state where the root is mounted.
abbrev pub Follows : Shell → Type 0
Follows s = Shell.is_mounted s ≡ true → IsConsistent s

moved :
    (m commits : Bool) (s : Shell) (h : Text)
    → s.is_mounted ≡ m
    → Follows s
    → Follows (handle commits s (hash_change h))
unfolding handle
moved true commits s h e c =
    rw e (λ up. record {
      routed = refl;
      saved = (c e).saved;
      dark = (c e).dark;
      themed = (c e).themed;
    })
moved false commits s h e c = rw e (λ up. cc)

pressed :
    (m commits : Bool) (s : Shell)
    → s.is_mounted ≡ m
    → Follows s
    → Follows (handle commits s theme_button)
unfolding handle
pressed true commits s e c = rw e (
    commit_theme-IsConsistent commits (record s { theme = other_theme s.theme; is_mounted = true })
      (c e).routed (other_theme-ne-nil s.theme))
pressed false commits s e c = rw e (λ up. cc)

pub handle-IsConsistent :
    (commits : Bool) (s : Shell) (e : Event) → Follows s → Follows (handle commits s e)
handle-IsConsistent commits s (hash_change h) c = moved s.is_mounted commits s h refl c
handle-IsConsistent commits s theme_button c = pressed s.is_mounted commits s refl c
handle-IsConsistent commits s scroll_down c =
    unfold handle in
    (λ h. record {
      routed = (c h).routed;
      saved = (c h).saved;
      dark = (c h).dark;
      themed = (c h).themed;
    })
handle-IsConsistent commits s reload c = unfold handle in mount-IsConsistent commits s.hash s.stored

run-IsConsistent : (es : List (Bool × Event)) (s : Shell) → Follows s → Follows (run s es)
unfolding run
run-IsConsistent [] s c = c
run-IsConsistent ((commits, e) ∷ es) s c =
    run-IsConsistent es (handle commits s e) (handle-IsConsistent commits s e c)

-- In every session, from any address and any stored theme, and whichever renders commit: while the
-- root is mounted, the route is that of the address, the store holds the theme, the document has
-- the class `dark` exactly under the theme `dark`, and the theme is not empty.
pub run-mount-IsConsistent :
    (commits : Bool) (hash : Text) (stored : Option Text) (es : List (Bool × Event))
    → Shell.is_mounted (run (mount commits hash stored) es) ≡ true
    → IsConsistent (run (mount commits hash stored) es)
run-mount-IsConsistent commits hash stored es =
    run-IsConsistent es (mount commits hash stored) (mount-IsConsistent commits hash stored)

initial_theme-some : (t : Text) → t ≢ [] → initial_theme (some t) ≡ t
unfolding initial_theme
initial_theme-some [] ne = absurd (ne refl)
initial_theme-some (c ∷ s) ne = refl

module _ {s : Shell} (c : IsConsistent s) where
  reload-theme : (handle true s reload).theme ≡ s.theme
  unfolding handle
  reload-theme = rw c.saved (initial_theme-some s.theme c.themed)

  reload-dark : (handle true s reload).dark_class ≡ s.dark_class
  unfolding handle
  reload-dark = rw (c.saved, c.dark) (rw (initial_theme-some s.theme c.themed))

  reload-route : (handle true s reload).route ≡ s.route
  unfolding handle
  reload-route = sym c.routed

  -- A reload whose render commits keeps the page, the theme and the class of the document.
  pub reload_consistent :
      ((handle true s reload).route ≡ s.route)
      × ((handle true s reload).theme ≡ s.theme)
      × ((handle true s reload).dark_class ≡ s.dark_class)
  reload_consistent = (reload-route, reload-theme, reload-dark)
