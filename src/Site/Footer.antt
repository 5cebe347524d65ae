-- ===== src/Site/Footer.antt =====
-- footer.jsx: the footer.
use trace_graph.Base.{codes, [], ◌∷◌, false, map}
use trace_graph.Site.Markup.{
  a_tag, div_tag, footer_tag, h5_tag, li_tag, p_tag, span_tag, ul_tag, class_name, href_attr, Node,
  txt, keyed, el,
}
use trace_graph.Site.Primitives.Elements.{status_dot}
use trace_graph.Site.Header.{logo}
use trace_graph.Site.Primitives.{footer_columns}

-- `Footer`.
unfoldable pub footer : Node
unfolding status_dot logo footer_columns
footer = el footer_tag (class_name (codes "border-t hairline bg-white dark:bg-ink-950") ∷ []) (
    el div_tag
      (class_name
          (codes "max-w-[1500px] mx-auto px-6 lg:px-8 py-12 grid grid-cols-2 md:grid-cols-5 gap-8")
        ∷ [])
      (el div_tag (class_name (codes "col-span-2") ∷ []) (
          el div_tag (class_name (codes "flex items-center gap-2.5") ∷ []) (
            logo
            ∷ el span_tag
                (class_name
                    (codes "font-medium tracking-tight text-ink-950 dark:text-white text-[15px]")
                  ∷ [])
                (txt (codes "TraceGraph") ∷ [])
            ∷ [])
          ∷ el p_tag
              (class_name (
                  codes
                    "mt-4 text-[13.5px] text-ink-600 dark:text-ink-400 max-w-xs leading-relaxed")
                ∷ [])
              (txt (
                  codes
                    "Typed execution-graph runtime for the JVM. Apache 2.0. Built by people who got paged at 3 a.m. one too many times.")
                ∷ [])
          ∷ el div_tag
              (class_name (codes "mt-5 flex items-center gap-2 mono text-[11px] text-ink-500") ∷ [])
              (status_dot (codes "ok") false ∷ txt (codes "All systems operational") ∷ [])
          ∷ [])
        ∷ map
            (λ col. keyed col.title (
              el div_tag [] (
                el h5_tag
                  (class_name
                      (codes "mono text-[10.5px] uppercase tracking-[0.14em] text-ink-500 mb-3")
                    ∷ [])
                  (txt col.title ∷ [])
                ∷ el ul_tag (class_name (codes "space-y-2") ∷ []) (
                    map
                      (λ row. keyed row.0 (
                        el li_tag [] (
                          el a_tag
                            (href_attr row.1
                              ∷ class_name (
                                  codes
                                    "text-[13.5px] text-ink-600 dark:text-ink-400 hover:text-ink-950 dark:hover:text-white")
                              ∷ [])
                            (txt row.0 ∷ [])
                          ∷ [])))
                      col.items)
                ∷ [])))
            footer_columns)
    ∷ el div_tag (class_name (codes "border-t hairline") ∷ []) (
        el div_tag
          (class_name (
              codes
                "max-w-[1500px] mx-auto px-6 lg:px-8 py-5 flex items-center justify-between mono text-[11px] text-ink-500")
            ∷ [])
          (el span_tag [] (txt (codes "© 2026 TraceGraph contributors · Apache-2.0") ∷ [])
            ∷ el span_tag [] (txt (codes "v0.3.0 · jdk-21+") ∷ [])
            ∷ [])
        ∷ [])
    ∷ [])
