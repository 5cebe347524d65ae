-- ===== src/Site/Explorer/Inspect.antt =====
-- `InspectorPanel` of trace.jsx, for the active step.
use trace_graph.Base.{
  Text, Option, codes, text_eq, decimal, List, [], ◌∷◌, ◌++◌, none, some, none, map, if◌then◌else◌,
}
use trace_graph.Site.Markup.{
  button_tag, div_tag, h4_tag, pre_tag, span_tag, class_name, Node, txt, keyed, el, map_index,
}
use trace_graph.Site.Primitives.Elements.{icon}
use trace_graph.Site.Explorer.Data.{Step}
use trace_graph.Site.Explorer.{Field, fields, diff_line_class}
use trace_graph.Value.{Js, truthy}
use trace_graph.Value.Print.{stringify_pretty}
use trace_graph.Site.Explorer.Panels.{panel}

-- A field: its key and its value.
unfoldable pub field_view : (f : Field) → Node
field_view f =
    el div_tag
      (class_name (
          codes
            "grid grid-cols-[100px_1fr] gap-3 py-2 border-t hairline first:border-t-0 text-[12.5px]")
        ∷ [])
      (el span_tag (class_name (codes "mono text-[11px] text-ink-500") ∷ []) (txt f.k ∷ [])
        ∷ el span_tag
            (class_name (
                (codes "mono text-[12px] break-all ")
                ++ (if (text_eq f.tone (codes "err"))
                    then codes "text-rose-600 dark:text-rose-400"
                    else if (text_eq f.tone (codes "ok"))
                    then codes "text-emerald-600 dark:text-emerald-400"
                    else codes "text-ink-950 dark:text-white"))
              ∷ [])
            (txt f.v ∷ [])
        ∷ [])

-- What a text that may be undefined shows as a child.
unfoldable pub shown_text : Option Text → List Node
shown_text none = []
shown_text (some t) = txt t ∷ []

-- `{JSON.stringify(v, null, 2)}`
unfoldable pub json_child : Js → List Node
unfolding shown_text
json_child v = shown_text (stringify_pretty v)

-- `InspectorPanel`.
unfoldable pub inspector_panel : (step : Step) → Node
unfolding icon panel field_view fields json_child diff_line_class
inspector_panel step =
    panel ((codes "step · ") ++ step.name)
      ((el button_tag
          (class_name (
              codes
                "w-6 h-6 rounded inline-flex items-center justify-center text-ink-500 hover:bg-ink-100 dark:hover:bg-ink-900")
            ∷ [])
          (icon (codes "copy") 12 [] ∷ []))
        ∷ [])
      []
      (el div_tag (class_name (codes "p-4 pb-6") ∷ []) (
          map field_view (fields step)
          ++ (el h4_tag
                (class_name
                    (codes "mono text-[10.5px] uppercase tracking-[0.14em] text-ink-500 mt-6 mb-2")
                  ∷ [])
                (txt (codes "State diff") ∷ [])
              ∷ el div_tag
                  (class_name (
                      codes
                        "rounded-lg bg-ink-950 dark:bg-black/60 border border-white/5 p-3.5 mono text-[11.5px] leading-[1.65] whitespace-pre-wrap break-all")
                    ∷ [])
                  (map_index
                    (λ i line.
                      keyed (decimal i)
                        (el div_tag (class_name (diff_line_class line) ∷ []) (txt line ∷ [])))
                    0 step.diff)
              ∷ el h4_tag
                  (class_name (
                      codes "mono text-[10.5px] uppercase tracking-[0.14em] text-ink-500 mt-5 mb-2")
                    ∷ [])
                  (txt (codes "State · before") ∷ [])
              ∷ el pre_tag
                  (class_name (
                      codes
                        "rounded-lg bg-ink-50 dark:bg-ink-900 border hairline p-3.5 mono text-[11px] text-ink-700 dark:text-ink-300 overflow-x-auto scroll-thin")
                    ∷ [])
                  (json_child step.before)
              ∷ el h4_tag
                  (class_name (
                      codes "mono text-[10.5px] uppercase tracking-[0.14em] text-ink-500 mt-5 mb-2")
                    ∷ [])
                  (txt (codes "State · after") ∷ [])
              ∷ (if truthy step.after
                  then (el pre_tag
                      (class_name (
                          codes
                            "rounded-lg bg-ink-50 dark:bg-ink-900 border hairline p-3.5 mono text-[11px] text-ink-700 dark:text-ink-300 overflow-x-auto scroll-thin")
                        ∷ [])
                      (json_child step.after))
                    ∷ []
                  else (el div_tag
                      (class_name (
                          codes
                            "rounded-lg border border-rose-200 dark:border-rose-900/40 bg-rose-50 dark:bg-rose-900/20 p-3.5 mono text-[11px] text-rose-700 dark:text-rose-300")
                        ∷ [])
                      (txt (codes "(no exit; node failed)") ∷ []))
                    ∷ [])))
        ∷ [])
