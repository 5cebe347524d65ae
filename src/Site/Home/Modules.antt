-- ===== src/Site/Home/Modules.antt =====
-- `ModulesSection` of home.jsx.
use trace_graph.Base.{codes, text_eq, ltb, [], ◌∷◌, ◌++◌, false, some, if◌then◌else◌}
use trace_graph.Site.Markup.{
  div_tag, h2_tag, p_tag, section_tag, span_tag, class_name, Node, txt, keyed, el, map_index,
}
use trace_graph.Site.Primitives.Elements.{status_dot, badge, code, section_label}
use trace_graph.Site.Primitives.{modules}

-- `ModulesSection`.
unfoldable pub modules_section : Node
unfolding status_dot badge code section_label modules
modules_section = el section_tag (class_name (codes "border-t hairline") ∷ []) (
    el div_tag (class_name (codes "max-w-[1320px] mx-auto px-6 lg:px-8 py-24") ∷ []) (
      el div_tag (class_name (codes "grid md:grid-cols-[280px_1fr] gap-12 mb-12") ∷ []) (
        section_label (some (codes "04")) [] (txt (codes "Modules") ∷ [])
        ∷ el div_tag [] (
            el h2_tag
              (class_name (
                  codes
                    "display-tight text-[44px] lg:text-[56px] text-ink-950 dark:text-white text-balance")
                ∷ [])
              (txt (codes "Eleven modules. Add only what you need.") ∷ [])
            ∷ el p_tag
                (class_name (codes "mt-5 text-[16px] text-ink-600 dark:text-ink-400 max-w-2xl")
                  ∷ [])
                (txt (codes "Adoption sequence we recommend: ")
                  ∷ code [] (txt (codes "core") ∷ [])
                  ∷ txt (codes " first, ")
                  ∷ code [] (txt (codes "observability") ∷ [])
                  ∷ txt (codes " second, then storage and connectors slice by slice.")
                  ∷ [])
            ∷ [])
        ∷ [])
      ∷ el div_tag
          (class_name (codes "rounded-2xl border hairline overflow-hidden bg-white dark:bg-ink-950")
            ∷ [])
          (map_index
            (λ i m. keyed m.name (
              el div_tag
                (class_name (
                    (codes "grid grid-cols-[280px_1fr_auto] gap-6 items-center px-6 py-4 ")
                    ++ (if (ltb 0 i) then codes "border-t hairline" else []))
                  ∷ [])
                (el div_tag
                    (class_name (codes "mono text-[13px] font-medium text-ink-950 dark:text-white")
                      ∷ [])
                    (txt m.name ∷ [])
                  ∷ el div_tag
                      (class_name (codes "text-[14px] text-ink-600 dark:text-ink-400") ∷ [])
                      (txt m.desc ∷ [])
                  ∷ el div_tag (class_name (codes "flex items-center gap-3") ∷ []) (
                      badge
                        (if (text_eq m.status (codes "stable"))
                          then codes "ok"
                          else if (text_eq m.status (codes "experimental"))
                          then codes "warn"
                          else codes "neutral")
                        (status_dot
                            (if (text_eq m.status (codes "stable"))
                              then codes "ok"
                              else if (text_eq m.status (codes "experimental"))
                              then codes "warn"
                              else codes "neutral")
                            false
                          ∷ txt m.status
                          ∷ [])
                      ∷ el span_tag
                          (class_name (codes "mono text-[11px] text-ink-500 w-12 text-right") ∷ [])
                          (txt m.cov ∷ [])
                      ∷ [])
                  ∷ [])))
            0 modules)
      ∷ [])
    ∷ [])
