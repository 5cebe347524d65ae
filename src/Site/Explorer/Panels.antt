-- ===== src/Site/Explorer/Panels.antt =====
-- `Panel`, `StepListPanel` and `LogsPanel` of trace.jsx.
use trace_graph.Base.{
  ℕ, Text, codes, text_eq, decimal, ltb, ◌==◌, List, [], ◌∷◌, ◌++◌, map, take, length,
  if◌then◌else◌,
}
use trace_graph.Site.Markup.{
  button_tag, div_tag, span_tag, set_active_idx, class_name, on_click, Node, txt, keyed, el,
  map_index,
}
use trace_graph.Site.Primitives.Elements.{icon, badge}
use trace_graph.Site.Primitives.{class_text}
use trace_graph.Site.Explorer.Data.{steps, logs, execution_id}
use trace_graph.Site.Explorer.{pad_start, child_number}
use trace_graph.Site.Explorer.Logs.{level_color, upper}

-- `Panel`.
unfoldable pub panel :
    (title : Text) (action : List Node) (class_ : Text) (children : List Node) → Node
panel title action class_ children =
    el div_tag
      (class_name (
          (codes
            "rounded-xl border hairline bg-white dark:bg-ink-950 flex flex-col min-h-0 overflow-hidden ")
          ++ class_)
        ∷ [])
      (el div_tag
          (class_name (
              codes
                "px-4 py-2.5 border-b hairline flex items-center justify-between bg-ink-50/50 dark:bg-ink-900/40")
            ∷ [])
          (el span_tag
              (class_name (codes "mono text-[10.5px] uppercase tracking-[0.14em] text-ink-500")
                ∷ [])
              (txt title ∷ [])
            ∷ el div_tag (class_name (codes "flex items-center gap-1") ∷ []) action
            ∷ [])
        ∷ el div_tag (class_name (codes "flex-1 overflow-auto scroll-thin min-h-0") ∷ []) children
        ∷ [])

-- `StepListPanel`.
unfoldable pub step_list_panel : (active : ℕ) → Node
unfolding icon badge steps pad_start panel child_number
step_list_panel active =
    panel ((codes "Steps · ") ++ (decimal (length steps)))
      (el button_tag
          (class_name (
              codes
                "w-6 h-6 rounded inline-flex items-center justify-center text-ink-500 hover:bg-ink-100 dark:hover:bg-ink-900")
            ∷ [])
          (icon (codes "filter") 12 [] ∷ [])
        ∷ el button_tag
            (class_name (
                codes
                  "w-6 h-6 rounded inline-flex items-center justify-center text-ink-500 hover:bg-ink-100 dark:hover:bg-ink-900")
              ∷ [])
            (icon (codes "search") 12 [] ∷ [])
        ∷ [])
      []
      (el div_tag (class_name (codes "py-1.5") ∷ []) (
          map
            (λ s. keyed (decimal s.i) (
              el button_tag
                (on_click (set_active_idx s.i)
                  ∷ class_name (
                      (codes
                        "w-full text-left grid grid-cols-[24px_1fr_auto] gap-2 items-center px-3.5 py-2.5 border-l-2 transition-colors ")
                      ++ (if (active == s.i)
                          then codes "bg-accent-50 dark:bg-accent-700/15 border-accent-500"
                          else codes "border-transparent hover:bg-ink-50 dark:hover:bg-ink-900/60"))
                  ∷ [])
                (el span_tag
                    (class_name (
                        (codes "mono text-[10.5px] ")
                        ++ (if (active == s.i)
                            then codes "text-accent-700 dark:text-accent-100"
                            else codes "text-ink-400"))
                      ∷ [])
                    (txt (codes "#") ∷ txt (pad_start 2 s.i) ∷ [])
                  ∷ el span_tag (class_name (codes "min-w-0") ∷ []) (
                      el span_tag
                        (class_name (
                            (codes "mono text-[12.5px] block truncate ")
                            ++ (if (text_eq s.status (codes "err"))
                                then codes "text-rose-600 dark:text-rose-400"
                                else codes "text-ink-950 dark:text-white"))
                          ∷ [])
                        (txt s.name ∷ [])
                      ∷ el span_tag (class_name (codes "flex items-center gap-1 mt-0.5") ∷ []) (
                          (if (text_eq s.status (codes "parallel"))
                            then (badge (codes "neutral")
                                (txt (codes "∥ ") ∷ txt (child_number s.branches) ∷ []))
                              ∷ []
                            else [])
                          ++ ((if s.is_async
                                then (badge (codes "neutral") (txt (codes "async") ∷ [])) ∷ []
                                else [])
                              ++ ((if (ltb 1 s.attempts)
                                    then (badge (codes "warn")
                                        (txt (codes "↻ ") ∷ txt (decimal s.attempts) ∷ []))
                                      ∷ []
                                    else [])
                                  ++ ((if (text_eq s.status (codes "err"))
                                        then (badge (codes "err") (txt (codes "FAIL") ∷ [])) ∷ []
                                        else [])
                                      ++ (if (text_eq s.status (codes "ok"))
                                          then (badge (codes "ok") (txt (codes "ok") ∷ [])) ∷ []
                                          else [])))))
                      ∷ [])
                  ∷ el span_tag (class_name (codes "mono text-[10.5px] text-ink-500") ∷ [])
                      (txt (decimal s.dur) ∷ txt (codes "ms") ∷ [])
                  ∷ [])))
            steps)
        ∷ [])

-- `LogsPanel`.
unfoldable pub logs_panel : Node
unfolding icon execution_id logs pad_start level_color upper class_text
logs_panel =
    el div_tag
      (class_name (codes "mt-3 rounded-xl border hairline bg-white dark:bg-ink-950 overflow-hidden")
        ∷ [])
      (el div_tag
          (class_name (
              codes
                "px-4 py-2.5 border-b hairline flex items-center justify-between bg-ink-50/50 dark:bg-ink-900/40")
            ∷ [])
          (el span_tag
              (class_name (codes "mono text-[10.5px] uppercase tracking-[0.14em] text-ink-500")
                ∷ [])
              (txt (codes "logs · execution ") ∷ txt (take 8 execution_id) ∷ [])
            ∷ el button_tag
                (class_name (
                    codes
                      "w-6 h-6 rounded inline-flex items-center justify-center text-ink-500 hover:bg-ink-100 dark:hover:bg-ink-900")
                  ∷ [])
                (icon (codes "chevron-down") 12 [] ∷ [])
            ∷ [])
        ∷ el div_tag
            (class_name
                (codes "max-h-[200px] overflow-auto scroll-thin mono text-[11.5px] leading-[1.65]")
              ∷ [])
            (map_index
              (λ i l. keyed (decimal i) (
                el div_tag
                  (class_name (
                      codes
                        "grid grid-cols-[60px_50px_1fr] gap-3 px-4 py-1 border-t hairline first:border-t-0 text-ink-700 dark:text-ink-300")
                    ∷ [])
                  (el span_tag (class_name (codes "text-ink-400") ∷ [])
                      (txt (pad_start 4 l.t) ∷ txt (codes "ms") ∷ [])
                    ∷ el span_tag
                        (class_name ((codes "font-medium ") ++ (class_text (level_color l.lv)))
                          ∷ [])
                        (txt (upper l.lv) ∷ [])
                    ∷ el span_tag [] (txt l.msg ∷ [])
                    ∷ [])))
              0 logs)
        ∷ [])
