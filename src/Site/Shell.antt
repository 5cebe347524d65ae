-- ===== src/Site/Shell.antt =====
-- app.jsx and the navigation of header.jsx: the hash router, the theme, and what the shell shows.
pub mod Routes
pub mod Session
mod Tests
use trace_graph.Base.{
  ℕ, Text, codes, text_eq, split_head, if◌then◌else◌, List, [], ◌∷◌, ◌==◌, any, Bool, true, false,
  Option, none, some, map, ◌||◌,
}

-- `s.replace(/^c/, '')` for a single character `c`.
unfoldable pub drop_leading : ℕ → Text → Text
drop_leading c [] = []
drop_leading c (x ∷ s) = if x == c then s else x ∷ s

unfoldable pub includes : List Text → Text → Bool
includes xs s = any (text_eq s) xs

unfoldable pub known_segments : List Text
known_segments =
    codes "docs" ∷ codes "trace" ∷ codes "studio" ∷ codes "api" ∷ codes "changelog" ∷ []

-- The segment, where it is a known one.
unfoldable pub known_or_home : Text → Text
unfolding includes known_segments
known_or_home seg = if includes known_segments seg then seg else codes "home"

-- `if (!h) return 'home'`, and the first segment of the rest.
unfoldable pub route_of_path : Text → Text
unfolding known_or_home
route_of_path [] = codes "home"
route_of_path (c ∷ h) = known_or_home (split_head b'/' (c ∷ h))

unfoldable pub parse_route : Text → Text
unfolding route_of_path drop_leading
parse_route hash = route_of_path (drop_leading b'/' (drop_leading b'#' hash))

-- The page component that `App` puts into `<main>`.
pub data Content : Type 0 where
  docs trace_explorer studio api_ref changelog home : Content

unfoldable pub content : Text → Content
content route =
    if text_eq route (codes "docs")
    then docs
    else if text_eq route (codes "trace")
    then trace_explorer
    else if text_eq route (codes "studio")
    then studio
    else if text_eq route (codes "api")
    then api_ref
    else if text_eq route (codes "changelog")
    then changelog
    else home

unfoldable pub show_footer : Text → Bool
show_footer route =
    text_eq route (codes "home")
    || (text_eq route (codes "docs")
        || (text_eq route (codes "changelog") || text_eq route (codes "api")))

-- header.jsx: the entries of the navigation bar.
pub record NavEntry : Type 0 where
  pub id : Text
  pub href : Text
  pub label : Text

unfoldable pub nav : List NavEntry
nav =
    record { id = codes "home"; href = codes "#/"; label = codes "Overview" }
    ∷ record { id = codes "docs"; href = codes "#/docs"; label = codes "Docs" }
    ∷ record { id = codes "trace"; href = codes "#/trace"; label = codes "Trace" }
    ∷ record { id = codes "studio"; href = codes "#/studio"; label = codes "Studio" }
    ∷ record { id = codes "api"; href = codes "#/api"; label = codes "API" }
    ∷ record { id = codes "changelog"; href = codes "#/changelog"; label = codes "Changelog" }
    ∷ []

-- Which entries the header marks, `route === n.id`.
unfoldable pub nav_marks : Text → List Bool
nav_marks route = map (λ n. text_eq route n.id) nav

-- What the browser and the shell hold: the address, the component's state, the store, the class
-- `dark` of the document, whether the window stands at its top, and whether the root of React is
-- mounted: an error of a render unmounts it, with its listener.
pub record Shell : Type 0 where
  pub hash : Text
  pub route : Text
  pub theme : Text
  pub stored : Option Text
  pub dark_class : Bool
  pub at_top : Bool
  pub is_mounted : Bool

-- `localStorage.getItem('tg-theme')`, and 'light' where it is null or empty.
unfoldable pub initial_theme : Option Text → Text
initial_theme none = codes "light"
initial_theme (some []) = codes "light"
initial_theme (some (c ∷ s)) = c ∷ s

-- The effect of `useTheme`, which runs after each change of the theme.
unfoldable pub theme_effect : Shell → Shell
theme_effect s = record s { dark_class = text_eq s.theme (codes "dark"); stored = some s.theme }

-- What the first render of `App` reads: the route and the theme.
unfoldable pub first_render : Text → Option Text → Shell
unfolding initial_theme
first_render hash stored = record {
  hash = hash;
  route = parse_route hash;
  theme = initial_theme stored;
  stored = stored;
  dark_class = false;
  at_top = true;
  is_mounted = true;
}

-- The effect runs only if the render commits, that is, if it throws no error.
unfoldable pub commit_theme : Bool → Shell → Shell
unfolding theme_effect
commit_theme true s = theme_effect s
commit_theme false s = record s { is_mounted = false }

-- The first render and what follows.
unfoldable pub mount : Bool → Text → Option Text → Shell
unfolding commit_theme first_render
mount commits hash stored = commit_theme commits (first_render hash stored)

-- `setTheme(theme === 'dark' ? 'light' : 'dark')`
unfoldable pub other_theme : Text → Text
other_theme theme = if text_eq theme (codes "dark") then codes "light" else codes "dark"

pub data Event : Type 0 where
  hash_change : Text → Event
  theme_button : Event
  scroll_down : Event
  reload : Event

-- An event, with the flag of the render that it leads to: whether it commits. With the root
-- unmounted nothing listens to the address, and there is no button.
unfoldable pub handle : Bool → Shell → Event → Shell
unfolding other_theme commit_theme mount
handle commits s (hash_change h) =
    if s.is_mounted
    then record s { hash = h; route = parse_route h; at_top = true; is_mounted = commits }
    else record s { hash = h }
handle commits s theme_button =
    if s.is_mounted then commit_theme commits (record s { theme = other_theme s.theme }) else s
handle commits s scroll_down = record s { at_top = false }
handle commits s reload = mount commits s.hash s.stored

unfoldable pub run : Shell → List (Bool × Event) → Shell
unfolding handle
run s [] = s
run s ((commits, e) ∷ es) = run (handle commits s e) es
