-- ===== src/Site/Studio/Panel.antt =====
-- `StudioProps` of studio.jsx: the panel of the selected node.
use mathlib.Core.Option
use trace_graph.Base.{
  find, Text, codes, text_eq, decimal, ◌==◌, [], ◌∷◌, Option, length, if◌then◌else◌,
}
use trace_graph.Site.Markup.{
  div_tag, h4_tag, pre_tag, span_tag, class_name, Node, txt, keyed, el, map_index,
}
use trace_graph.Site.Explorer.Data.{edges}
use trace_graph.Site.Studio.Data.{StudioNode, studio_nodes}
use trace_graph.Site.Studio.{condition, incoming, outgoing, builder_text}

-- `Field`.
unfoldable pub prop_field : (k v : Text) → Node
prop_field k v =
    el div_tag
      (class_name (
          codes
            "grid grid-cols-[100px_1fr] gap-3 py-2 border-t hairline first:border-t-0 text-[12.5px]")
        ∷ [])
      (el span_tag (class_name (codes "mono text-[11px] text-ink-500") ∷ []) (txt k ∷ [])
        ∷ el span_tag
            (class_name (codes "mono text-[12px] text-ink-950 dark:text-white break-all") ∷ [])
            (txt v ∷ [])
        ∷ [])

-- The panel of a node.
unfoldable pub node_panel : (n : StudioNode) → Node
unfolding prop_field incoming outgoing condition builder_text edges
node_panel n = el div_tag (class_name (codes "p-4 pb-6") ∷ []) (
    prop_field (codes "name") n.name
    ∷ prop_field (codes "kind") n.kind
    ∷ prop_field (codes "function") n.fn
    ∷ prop_field (codes "retry") n.retry
    ∷ prop_field (codes "entry") (if n.entry then codes "true" else codes "false")
    ∷ prop_field (codes "terminal") (if n.terminal then codes "true" else codes "false")
    ∷ el h4_tag
        (class_name (codes "mono text-[10.5px] uppercase tracking-[0.14em] text-ink-500 mt-6 mb-2")
          ∷ [])
        (txt (codes "Incoming") ∷ [])
    ∷ el div_tag
        (class_name (codes "rounded-lg bg-ink-50 dark:bg-ink-900 p-3 mono text-[11.5px]") ∷ [])
        (if length (incoming edges n) == 0
          then (el span_tag (class_name (codes "text-ink-500") ∷ [])
              (txt (codes "(entry — no incoming)") ∷ []))
            ∷ []
          else map_index
              (λ i e. keyed (decimal i) (
                el div_tag (class_name (codes "text-ink-700 dark:text-ink-300") ∷ []) (
                  txt (codes "← ")
                  ∷ el span_tag (class_name (codes "text-emerald-600 dark:text-emerald-400") ∷ [])
                      (txt e.from ∷ [])
                  ∷ txt (condition e.label)
                  ∷ [])))
              0 ((incoming edges n)))
    ∷ el h4_tag
        (class_name (codes "mono text-[10.5px] uppercase tracking-[0.14em] text-ink-500 mt-5 mb-2")
          ∷ [])
        (txt (codes "Outgoing") ∷ [])
    ∷ el div_tag
        (class_name (codes "rounded-lg bg-ink-50 dark:bg-ink-900 p-3 mono text-[11.5px]") ∷ [])
        (if length (outgoing edges n) == 0
          then (el span_tag (class_name (codes "text-ink-500") ∷ [])
              (txt (codes "(terminal — no outgoing)") ∷ []))
            ∷ []
          else map_index
              (λ i e. keyed (decimal i) (
                el div_tag (class_name (codes "text-ink-700 dark:text-ink-300") ∷ []) (
                  txt (codes "→ ")
                  ∷ el span_tag (class_name (codes "text-emerald-600 dark:text-emerald-400") ∷ [])
                      (txt e.to ∷ [])
                  ∷ txt (condition e.label)
                  ∷ [])))
              0 ((outgoing edges n)))
    ∷ el h4_tag
        (class_name (codes "mono text-[10.5px] uppercase tracking-[0.14em] text-ink-500 mt-5 mb-2")
          ∷ [])
        (txt (codes "Builder") ∷ [])
    ∷ el pre_tag
        (class_name (
            codes
              "rounded-lg bg-ink-950 dark:bg-black/60 border border-white/5 p-3 mono text-[11px] text-white/85 overflow-x-auto scroll-thin")
          ∷ [])
        (txt (builder_text n) ∷ [])
    ∷ [])

-- `StudioProps`; `none` is the TypeError on `undefined.name`.
unfoldable pub props_panel : Text → Option Node
unfolding node_panel studio_nodes
props_panel active = Option.map node_panel (find (λ n. text_eq n.name active) studio_nodes)
