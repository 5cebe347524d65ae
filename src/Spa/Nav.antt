-- ===== src/Spa/Nav.antt =====
-- `setActiveNav` of app.js: the marks of the links of the navigation bar. The links are those of the
-- page that loads the app.
use trace_graph.Base.{
  Text, codes, text_eq, List, [], ◌∷◌, ◌++◌, map, Bool, false, Option, none, some, ◌≡◌, refl, ap,
  ◌∙◌,
}
use trace_graph.Spa.Router.{View, trace_list, trace, graph, diff, route}

-- A link with its `data-route`, where it has one, and whether it has the class "active".
pub record NavLink : Type 0 where
  pub data_route : Option Text
  pub active : Bool

-- `a.dataset.route === route`
unfoldable pub is_route : Text → Option Text → Bool
is_route name none = false
is_route name (some t) = text_eq t name

unfoldable pub mark : Text → NavLink → NavLink
unfolding is_route
mark name a = record a { active = is_route name a.data_route }

unfoldable pub set_active_nav : Text → List NavLink → List NavLink
unfolding mark
set_active_nav name links = map (mark name) links

-- The name that each view marks first.
unfoldable pub nav_name : View → Text
nav_name trace_list = codes "traces"
nav_name (trace id) = codes "traces"
nav_name graph = codes "graph"
nav_name (diff query) = codes "diff"

-- The marks after the app has shown the views of these addresses, one after the other.
unfoldable pub marks_after : List Text → List NavLink → List NavLink
unfolding set_active_nav nav_name
marks_after [] links = links
marks_after (h ∷ hs) links = marks_after hs (set_active_nav (nav_name (route h)) links)

set_active_nav-twice :
    (a b : Text) (links : List NavLink)
    → set_active_nav a (set_active_nav b links) ≡ set_active_nav a links
unfolding set_active_nav mark
set_active_nav-twice a b [] = refl
set_active_nav-twice a b (l ∷ links) = ap (λ ls. mark a l ∷ ls) (set_active_nav-twice a b links)

-- The marks depend on the last address alone: a link is marked exactly where its route is the one
-- of the last view, whatever was marked before.
pub marks_after-last :
    (hs : List Text) (h : Text) (links : List NavLink)
    → marks_after (hs ++ (h ∷ [])) links ≡ set_active_nav (nav_name (route h)) links
unfolding marks_after
marks_after-last [] h links = refl
marks_after-last (g ∷ hs) h links =
    marks_after-last hs h (set_active_nav (nav_name (route g)) links)
    ∙ set_active_nav-twice (nav_name (route h)) (nav_name (route g)) links
