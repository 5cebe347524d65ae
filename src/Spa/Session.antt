-- ===== src/Spa/Session.antt =====
-- The views as they run: a view writes its markup at once with a note that it loads, and again
-- when its requests are answered, in whatever order the answers come.
pub mod Stale
use trace_graph.Base.{List, [], ◌∷◌, ◌++◌, Bool, true, false, ◌≡◌}
use trace_graph.Spa.Router.{View, trace_list, trace, graph, diff}

-- What the element `#view` shows.
pub data Shown : Type 0 where
  loading loaded : View → Shown

pub record Screen : Type 0 where
  pub current : View
  pub shown : Shown
  pub pending : List View

-- The diff view writes its form at once; its requests write to an element of that form.
unfoldable pub on_route : View → Shown × List View
on_route trace_list = (loading trace_list, trace_list ∷ [])
on_route (trace id) = (loading (trace id), trace id ∷ [])
on_route graph = (loading graph, graph ∷ [])
on_route (diff q) = (loaded (diff q), [])

-- `hashchange` calls `route`.
unfoldable pub navigate : View → Screen → Screen
navigate v s = record { current = v; shown = (on_route v).0; pending = s.pending ++ (on_route v).1 }

-- One step: the user opens a view, or the requests of one of the views that wait are answered.
pub data Step (s : Screen) : Screen → Type 0 where
  open_view : (v : View) → Step s (navigate v s)
  answer :
      (before : List View) (v : View) (after : List View)
      → s.pending ≡ before ++ (v ∷ after)
      → Step s (record { current = s.current; shown = loaded v; pending = before ++ after })

pub data Reach (s : Screen) : Screen → Type 0 where
  here : Reach s s
  next : {t u : Screen} → Reach s t → Step t u → Reach s u
