-- ===== src/Site/Labels/Api.antt =====
-- `ApiRef` and `Endpoint` of api.jsx: the page of the API.
use trace_graph.Base.{codes, decimal, ◌==◌, not, [], ◌∷◌, ◌++◌, Bool, some, map, if◌then◌else◌}
use trace_graph.Site.Markup.{
  div_tag, h1_tag, h2_tag, p_tag, section_tag, span_tag, class_name, Node, txt, keyed, el,
  map_index,
}
use trace_graph.Site.Primitives.Elements.{code, code_block}
use trace_graph.Site.Labels.{method_color}
use trace_graph.Site.Labels.Data.{ApiEndpoint, api_groups}

-- `Endpoint`.
unfoldable pub endpoint : (ep : ApiEndpoint) (first : Bool) → Node
unfolding method_color
endpoint ep first =
    el div_tag
      (class_name (
          (codes "grid grid-cols-[80px_1fr] gap-4 px-5 py-4 items-start ")
          ++ (if (not first) then codes "border-t hairline" else []))
        ∷ [])
      (el span_tag
          (class_name (
              (codes
                "mono text-[11px] uppercase tracking-wider px-2 h-6 inline-flex items-center rounded ")
              ++ (method_color ep.m))
            ∷ [])
          (txt ep.m ∷ [])
        ∷ el div_tag (class_name (codes "min-w-0") ∷ []) (
            el div_tag (class_name (codes "mono text-[13.5px] text-ink-950 dark:text-white") ∷ [])
              (txt ep.p ∷ [])
            ∷ el p_tag (class_name (codes "mt-1 text-[13.5px] text-ink-600 dark:text-ink-400") ∷ [])
                (txt ep.desc ∷ [])
            ∷ el div_tag (class_name (codes "mt-2 mono text-[11.5px] text-ink-500") ∷ []) (
                txt (codes "↳ returns ")
                ∷ el span_tag (class_name (codes "text-ink-700 dark:text-ink-300") ∷ [])
                    (txt ep.returns ∷ [])
                ∷ [])
            ∷ [])
        ∷ [])

-- `ApiRef`.
unfoldable pub api_ref : Node
unfolding code code_block endpoint api_groups
api_ref = el div_tag (class_name (codes "max-w-[1100px] mx-auto px-6 lg:px-8 py-16 fade-up") ∷ []) (
    el div_tag
      (class_name (codes "mono text-[11px] uppercase tracking-[0.14em] text-ink-500 mb-4") ∷ [])
      (txt (codes "REFERENCE / REST API") ∷ [])
    ∷ el h1_tag (class_name (codes "display-tight text-[56px] text-ink-950 dark:text-white") ∷ [])
        (txt (codes "API reference") ∷ [])
    ∷ el p_tag (class_name (codes "mt-4 text-[16px] text-ink-600 dark:text-ink-400 max-w-2xl") ∷ [])
        (txt (codes "Endpoints exposed by ")
          ∷ code [] (txt (codes "tracegraph-spring-boot-starter") ∷ [])
          ∷ txt (codes " when ")
          ∷ code [] (txt (codes "tracegraph.web.enabled=true") ∷ [])
          ∷ txt (
              codes
                ". All paths are relative to your application's context root. Responses are JSON unless noted.")
          ∷ [])
    ∷ el div_tag (class_name (codes "mt-12 space-y-14") ∷ []) (
        map
          (λ grp. keyed grp.group (
            el section_tag [] (
              el h2_tag
                (class_name (
                    codes
                      "font-display text-[28px] text-ink-950 dark:text-white tracking-tight font-medium mb-5")
                  ∷ [])
                (txt grp.group ∷ [])
              ∷ el div_tag
                  (class_name
                      (codes "rounded-2xl border hairline overflow-hidden bg-white dark:bg-ink-950")
                    ∷ [])
                  (map_index (λ i ep. keyed (decimal i) (endpoint ep ((i == 0)))) 0 grp.endpoints)
              ∷ [])))
          api_groups)
    ∷ el section_tag (class_name (codes "mt-16") ∷ []) (
        el h2_tag
          (class_name (
              codes
                "font-display text-[28px] text-ink-950 dark:text-white tracking-tight font-medium mb-4")
            ∷ [])
          (txt (codes "Example: fork from a step") ∷ [])
        ∷ code_block (some (codes "curl")) (codes "bash") (
            codes
              "<span class=\"cm\"># Fork run e9c4f1a2 from step 2 against the current graph</span>\n$ curl -X POST <span class=\"st\">\"http://localhost:8080/tracegraph/traces/e9c4f1a2/replay?step=2\"</span>\n{\n  <span class=\"st\">\"executionId\"</span>: <span class=\"st\">\"f1d92cb0-...\"</span>,\n  <span class=\"st\">\"forkedFromExecutionId\"</span>: <span class=\"st\">\"e9c4f1a2-...\"</span>,\n  <span class=\"st\">\"forkedFromStepIndex\"</span>: 2,\n  <span class=\"st\">\"status\"</span>: <span class=\"st\">\"COMPLETED\"</span>\n}")
        ∷ [])
    ∷ [])
