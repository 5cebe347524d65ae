-- ===== src/Site/Docs/Parts.antt =====
-- `H2`, `P`, `Cb`, `Callout` and `Table` of docs.jsx, the parts of its pages.
use trace_graph.Base.{Text, codes, decimal, ◌==◌, List, [], ◌∷◌, ◌++◌, Option, map, if◌then◌else◌}
use trace_graph.Site.Markup.{
  div_tag, h2_tag, p_tag, table_tag, tbody_tag, td_tag, th_tag, thead_tag, tr_tag, class_name, Node,
  txt, keyed, el, map_index, optional_attr, attr,
}
use trace_graph.Site.Primitives.Elements.{code_block}
use trace_graph.Site.Highlight.{highlight_java}

-- `H2`.
unfoldable pub h2 : (id : Option Text) (children : List Node) → Node
h2 id children =
    el h2_tag
      (optional_attr (attr (codes "id")) id
        ++ (class_name (
              codes
                "font-display text-[26px] text-ink-950 dark:text-white tracking-tight font-medium mt-12 mb-3")
            ∷ []))
      children

-- `P`.
unfoldable pub p : (children : List Node) → Node
p children =
    el p_tag
      (class_name (codes "text-[15px] text-ink-700 dark:text-ink-300 leading-relaxed mb-4") ∷ [])
      children

-- `Cb`.
unfoldable pub cb : (file : Option Text) (lang src : Text) → Node
unfolding code_block highlight_java
cb file lang src =
    el div_tag (class_name (codes "my-4") ∷ []) (code_block file lang (highlight_java src) ∷ [])

-- `Callout`.
unfoldable pub callout : (children : List Node) → Node
callout children =
    el div_tag
      (class_name (
          codes
            "my-6 p-4 pl-5 rounded-xl border-l-2 border-accent-500 bg-accent-50/60 dark:bg-accent-700/10 text-[14.5px] text-ink-700 dark:text-ink-300")
        ∷ [])
      children

-- `Table`.
unfoldable pub table : (headers : List Text) (rows : List (List Text)) → Node
table headers rows =
    el div_tag (class_name (codes "my-6 rounded-xl border hairline overflow-hidden") ∷ []) (
      el table_tag (class_name (codes "w-full text-[13.5px]") ∷ []) (
        el thead_tag (class_name (codes "bg-ink-50 dark:bg-ink-900") ∷ []) (
          el tr_tag [] (
            map
              (λ h. keyed h (
                el th_tag
                  (class_name (
                      codes
                        "text-left mono text-[11px] uppercase tracking-wider text-ink-500 px-4 py-3 font-medium")
                    ∷ [])
                  (txt h ∷ [])))
              headers)
          ∷ [])
        ∷ el tbody_tag [] (
            map_index
              (λ i r. keyed (decimal i) (
                el tr_tag (class_name (codes "border-t hairline") ∷ []) (
                  map_index
                    (λ j c. keyed (decimal j) (
                      el td_tag
                        (class_name (
                            (codes "px-4 py-3 ")
                            ++ (if (j == 0)
                                then codes "mono text-[12.5px] text-ink-950 dark:text-white"
                                else codes "text-ink-700 dark:text-ink-300"))
                          ∷ [])
                        (txt c ∷ [])))
                    0 r)))
              0 rows)
        ∷ [])
      ∷ [])
