-- ===== src/Site/Docs/Page.antt =====
-- `DocPage` and `Docs` of docs.jsx: the documentation page for an address.
use trace_graph.Base.{Text, codes, text_eq, [], ◌∷◌, ◌++◌, Option, some, map, if◌then◌else◌}
use trace_graph.Site.Markup.{
  a_tag, article_tag, aside_tag, div_tag, h1_tag, h4_tag, h5_tag, li_tag, p_tag, span_tag, ul_tag,
  class_name, href_attr, Node, txt, keyed, el,
}
use trace_graph.Site.Primitives.Elements.{icon}
use trace_graph.Site.Docs.{active_doc, doc_page, item_href}
use trace_graph.Site.Docs.Data.{DocPage, docs_tree}
use trace_graph.Spa.Steps.{◌>>=◌}

-- `DocPage`, by the page that it found.
unfoldable pub doc_view : (page : DocPage) → Node
unfolding icon
doc_view page = el div_tag [] (
    el div_tag
      (class_name (codes "mono text-[11px] uppercase tracking-[0.14em] text-ink-500 mb-4") ∷ [])
      (txt (codes "DOCS / ") ∷ txt page.crumb ∷ [])
    ∷ el h1_tag (class_name (codes "display-tight text-[44px] text-ink-950 dark:text-white") ∷ [])
        (txt page.title ∷ [])
    ∷ el p_tag
        (class_name
            (codes "mt-4 text-[16px] text-ink-600 dark:text-ink-400 leading-relaxed max-w-2xl")
          ∷ [])
        (txt page.lede ∷ [])
    ∷ el div_tag (class_name (codes "mt-10") ∷ []) page.body
    ∷ el div_tag
        (class_name (
            codes
              "mt-16 pt-8 border-t hairline flex items-center justify-between mono text-[12px] text-ink-500")
          ∷ [])
        (el a_tag
            (href_attr (codes "#/docs")
              ∷ class_name (
                  codes "hover:text-ink-950 dark:hover:text-white inline-flex items-center gap-1.5")
              ∷ [])
            (icon (codes "arrow-left") 12 [] ∷ txt (codes " Back to docs") ∷ [])
          ∷ el span_tag [] (txt (codes "Edit on GitHub →") ∷ [])
          ∷ [])
    ∷ [])

-- The frame of `Docs`.
unfoldable pub docs_frame : (active : Text) (page : Node) → Node
unfolding docs_tree item_href
docs_frame active page =
    el div_tag
      (class_name (
          codes
            "max-w-[1320px] mx-auto px-6 lg:px-8 py-12 grid grid-cols-1 lg:grid-cols-[240px_1fr_200px] gap-12 fade-up")
        ∷ [])
      (el aside_tag
          (class_name (
              codes
                "lg:sticky lg:top-20 lg:self-start lg:max-h-[calc(100vh-100px)] overflow-y-auto scroll-thin pr-2")
            ∷ [])
          (map
            (λ group. keyed group.section (
              el div_tag (class_name (codes "mb-6") ∷ []) (
                el h4_tag
                  (class_name (
                      codes
                        "mono text-[10.5px] uppercase tracking-[0.14em] text-ink-500 dark:text-ink-500 mb-3")
                    ∷ [])
                  (txt group.section ∷ [])
                ∷ el ul_tag (class_name (codes "space-y-0.5") ∷ []) (
                    map
                      (λ it. keyed it.id (
                        el li_tag [] (
                          el a_tag
                            (href_attr (item_href it)
                              ∷ class_name (
                                  (codes
                                    "block px-3 py-1.5 rounded-md text-[13.5px] transition-colors ")
                                  ++ (if (text_eq active it.id)
                                      then codes
                                          "bg-ink-100 dark:bg-ink-900 text-ink-950 dark:text-white font-medium"
                                      else codes
                                          "text-ink-600 dark:text-ink-400 hover:text-ink-950 dark:hover:text-white"))
                              ∷ [])
                            (txt it.label ∷ [])
                          ∷ [])))
                      group.items)
                ∷ [])))
            docs_tree)
        ∷ el article_tag (class_name (codes "min-w-0") ∷ []) (page ∷ [])
        ∷ el aside_tag
            (class_name (codes "hidden lg:block lg:sticky lg:top-20 lg:self-start text-[12.5px]")
              ∷ [])
            (el h5_tag
                (class_name
                    (codes "mono text-[10.5px] uppercase tracking-[0.14em] text-ink-500 mb-3")
                  ∷ [])
                (txt (codes "On this page") ∷ [])
              ∷ el div_tag (class_name (codes "space-y-2 border-l hairline pl-4") ∷ []) (
                  el a_tag
                    (class_name
                        (codes "block text-ink-500 hover:text-ink-950 dark:hover:text-white")
                      ∷ href_attr (codes "#install")
                      ∷ [])
                    (txt (codes "Install") ∷ [])
                  ∷ el a_tag
                      (class_name
                          (codes "block text-ink-500 hover:text-ink-950 dark:hover:text-white")
                        ∷ href_attr (codes "#state")
                        ∷ [])
                      (txt (codes "Define state") ∷ [])
                  ∷ el a_tag
                      (class_name
                          (codes "block text-ink-500 hover:text-ink-950 dark:hover:text-white")
                        ∷ href_attr (codes "#build")
                        ∷ [])
                      (txt (codes "Build the graph") ∷ [])
                  ∷ el a_tag
                      (class_name
                          (codes "block text-ink-500 hover:text-ink-950 dark:hover:text-white")
                        ∷ href_attr (codes "#run")
                        ∷ [])
                      (txt (codes "Run it") ∷ [])
                  ∷ [])
              ∷ [])
        ∷ [])

-- `Docs` for an address; `none` is an error of the render.
unfoldable pub docs_view : Text → Option Node
unfolding docs_frame doc_view doc_page active_doc
docs_view hash = do
  page ← doc_page (active_doc hash)
  some (docs_frame (active_doc hash) (doc_view page))
