-- ===== src/Site/Explorer/Page.antt =====
-- `TraceExplorer` of trace.jsx, the page: its parts for the active index and the answer of the server.
use trace_graph.Base.{
  ℕ, Text, codes, decimal, List, [], ◌∷◌, ◌++◌, Bool, Option, none, some, take, get_elem?,
}
use trace_graph.Site.Markup.{
  button_tag, div_tag, option_tag, select_tag, span_tag, strong_tag, show_alert, class_name, Node,
  txt, keyed, el,
}
use trace_graph.Site.Primitives.Elements.{icon, badge, button}
use trace_graph.Site.Explorer.Data.{steps, execution_id, graph_name, started_at, run_duration}
use trace_graph.Site.Explorer.{fork_message}
use trace_graph.Value.{
  Js, undefined, null, bool, num, other_num, str, arr, obj, Items, nil, cons, to_text,
}
use trace_graph.Spa.Steps.{◌>>=◌}
use trace_graph.Site.Explorer.Panels.{panel, step_list_panel, logs_panel}
use trace_graph.Site.Explorer.Timeline.{timeline_panel}
use trace_graph.Site.Explorer.Inspect.{inspector_panel}
use trace_graph.Site.Explorer.GraphView.{trace_graph_svg}
use trace_graph.Site.Explorer.Runs.{RunView, trace_runs}
use trace_graph.Site.Explorer.Data.{trace_list}

-- `TraceTopBar`, by its options and the message of its button.
unfoldable pub top_bar : (options : List Node) (message : Text) → Node
unfolding icon badge button execution_id graph_name started_at run_duration
top_bar options message =
    el div_tag
      (class_name (
          codes
            "rounded-xl border hairline bg-white dark:bg-ink-950 px-4 py-2.5 flex items-center gap-3 mono text-[12px] text-ink-700 dark:text-ink-300 flex-wrap")
        ∷ [])
      (icon (codes "git-branch") 14 (codes "text-ink-500")
        ∷ el span_tag (class_name (codes "text-ink-950 dark:text-white") ∷ [])
            (txt (codes "execution ") ∷ txt (take 18 execution_id) ∷ txt (codes "…") ∷ [])
        ∷ el span_tag (class_name (codes "text-ink-300 dark:text-ink-700") ∷ [])
            (txt (codes "·") ∷ [])
        ∷ badge (codes "err") (txt (codes "FAILED") ∷ [])
        ∷ el span_tag (class_name (codes "text-ink-300 dark:text-ink-700") ∷ [])
            (txt (codes "·") ∷ [])
        ∷ el span_tag [] (
            txt (codes "graph ")
            ∷ el strong_tag (class_name (codes "text-ink-950 dark:text-white") ∷ [])
                (txt graph_name ∷ [])
            ∷ [])
        ∷ el span_tag (class_name (codes "text-ink-300 dark:text-ink-700") ∷ [])
            (txt (codes "·") ∷ [])
        ∷ el span_tag [] (txt started_at ∷ [])
        ∷ el span_tag (class_name (codes "text-ink-300 dark:text-ink-700") ∷ [])
            (txt (codes "·") ∷ [])
        ∷ el span_tag []
            (txt (decimal run_duration) ∷ txt (codes "ms · 5 steps · 1 retry · 1 fail") ∷ [])
        ∷ el div_tag (class_name (codes "flex-1") ∷ []) []
        ∷ el select_tag
            (class_name (
                codes
                  "mono text-[12px] px-2.5 h-8 rounded-lg border hairline bg-ink-50 dark:bg-ink-900 text-ink-950 dark:text-white")
              ∷ [])
            options
        ∷ button (codes "ghost") (codes "sm") (some (codes "git-compare")) none (codes "button")
            none none [] (txt (codes "Diff with…") ∷ [])
        ∷ button (codes "primary") (codes "sm") (some (codes "redo-2")) none (codes "button") none
            (some (show_alert message)) [] (txt (codes "Fork from step") ∷ [])
        ∷ [])

-- `GraphPanel`, by its drawing.
unfoldable pub graph_panel : (drawing : Node) → Node
unfolding icon graph_name panel
graph_panel drawing =
    panel ((codes "graph · ") ++ graph_name)
      (el button_tag
          (class_name (
              codes
                "w-6 h-6 rounded inline-flex items-center justify-center text-ink-500 hover:bg-ink-100 dark:hover:bg-ink-900")
            ∷ [])
          (icon (codes "maximize-2") 12 [] ∷ [])
        ∷ el button_tag
            (class_name (
                codes
                  "w-6 h-6 rounded inline-flex items-center justify-center text-ink-500 hover:bg-ink-100 dark:hover:bg-ink-900")
              ∷ [])
            (icon (codes "zoom-in") 12 [] ∷ [])
        ∷ el button_tag
            (class_name (
                codes
                  "w-6 h-6 rounded inline-flex items-center justify-center text-ink-500 hover:bg-ink-100 dark:hover:bg-ink-900")
              ∷ [])
            (icon (codes "zoom-out") 12 [] ∷ [])
        ∷ [])
      [] (el div_tag (class_name (codes "grid-bg h-full p-2") ∷ []) (drawing ∷ []) ∷ [])

-- The frame of `TraceExplorer`, by its parts.
unfoldable pub explorer_frame : (bar step_list graph inspection timeline log : Node) → Node
explorer_frame bar step_list graph inspection timeline log =
    el div_tag (class_name (codes "max-w-[1500px] mx-auto px-4 lg:px-6 py-6 fade-up") ∷ []) (
      bar
      ∷ el div_tag
          (class_name (
              codes
                "mt-4 grid grid-cols-1 lg:grid-cols-[300px_1fr_360px] gap-3 h-[calc(100vh-260px)] min-h-[640px]")
            ∷ [])
          (step_list ∷ graph ∷ inspection ∷ [])
      ∷ timeline
      ∷ log
      ∷ [])

-- What a value shows as a child of an element: null, undefined and Booleans show nothing, arrays
-- their elements, and `none` is the error on an object.
unfoldable mutual
  pub child : Js → Option (List Node)
  child undefined = some []
  child null = some []
  child (bool b) = some []
  child (num n) = some (txt (decimal n) ∷ [])
  child (other_num t) = some (txt t ∷ [])
  child (str t) = some (txt t ∷ [])
  child (arr vs) = child_items vs
  child (obj fs) = none

  pub child_items : Items → Option (List Node)
  child_items nil = some []
  child_items (cons v vs) = child v >>= λ ns. child_items vs >>= λ ms. some (ns ++ ms)

-- An option of the list of runs, and all of them.
unfoldable pub run_option : RunView → Option Node
unfolding child
run_option t = do
  id ← child t.id
  graph ← child t.graph
  status ← child t.status
  some (
      keyed (to_text t.id)
        (el option_tag [] (id ++ (txt (codes " · ") ∷ (graph ++ (txt (codes " · ") ∷ status))))))

unfoldable pub run_options : List RunView → Option (List Node)
unfolding run_option
run_options [] = some []
run_options (t ∷ ts) = do option ← run_option t; options ← run_options ts; some (option ∷ options)

-- The page; `none` is an error of the render. `answer` is what the fetch of the runs stored, and
-- the message of the button is read when it is clicked.
unfoldable pub explorer :
    (percent wide_percent : ℕ → ℕ → Text) (exceeds_zero : Js → Bool) (answer : Js) (active : ℕ)
    → Option Node
unfolding top_bar graph_panel explorer_frame step_list_panel logs_panel timeline_panel
    inspector_panel trace_graph_svg
explorer percent wide_percent exceeds_zero answer active = do
  runs ← trace_runs exceeds_zero trace_list answer
  options ← run_options runs
  drawing ← trace_graph_svg active
  step ← get_elem? steps active
  message ← fork_message execution_id steps active
  some (
      explorer_frame (top_bar options message) (step_list_panel active) (graph_panel drawing)
        (inspector_panel step) (timeline_panel percent wide_percent active step) logs_panel)
