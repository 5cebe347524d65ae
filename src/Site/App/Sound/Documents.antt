-- ===== src/Site/App/Sound/Documents.antt =====
-- The pages of the documentation: their links and interactive elements.
use trace_graph.Site.App.Sound.{
  leads, opens_named_page, names_doc, opens_segment, anchors, IsSound, all-append,
}
use trace_graph.Base.{
  Text, codes, text_eq, [], ◌++◌, Bool, true, false, Option, none, some, ◌≡◌, refl, subst, find,
  All, All-find, strip_prefix, split_head,
}
use mathlib.Core.Option.{some-injective}
use trace_graph.Spa.Steps.{>>=-eq-some}
use trace_graph.Site.Markup.{Node}
use trace_graph.Site.Markup.Tree.{is_flat, links, attr_links, is_interactive}
use trace_graph.Site.Shell.{parse_route, includes}
use trace_graph.Site.Docs.{docs_match}
use trace_graph.Site.Docs.Data.{doc_pages}
use trace_graph.Site.Docs.{
  item_href, active_doc, doc_page, page_with_body, or_quickstart, property_of, find_property,
  inherited_names,
}
use trace_graph.Site.Docs.Data.{docs_tree, DocPage}
use trace_graph.Site.Docs.Page.{docs_frame, doc_view, docs_view}
use trace_graph.Site.Highlight.{is_line_end}
use trace_graph.Site.Docs.Bodies.{
  quickstart_body, install_body, firstgraph_body, graphs_body, state_body, edges_body,
  parallel_body, retries_body, checkpoints_body, memory_body, interrupts_body, otel_body,
  replay_body, spring_body, llm_body, rest_body,
}

docs_frame-IsSound : (active : Text) (n : Node) → IsSound n → IsSound (docs_frame active n)
unfolding docs_frame is_flat links is_interactive attr_links leads opens_named_page names_doc
    opens_segment doc_pages parse_route docs_match text_eq codes strip_prefix split_head is_line_end
    docs_tree item_href
docs_frame-IsSound active n s = record {
  flat = rw s.flat refl;
  leading =
      rw (all-append leads (links n ++ []) anchors, all-append leads (links n) [], s.leading) refl;
}

doc_pages-IsSound : All (λ p. IsSound (doc_view p)) doc_pages
unfolding doc_pages doc_view is_flat links is_interactive attr_links leads opens_named_page
    names_doc opens_segment parse_route docs_match text_eq codes strip_prefix split_head is_line_end
    quickstart_body install_body firstgraph_body graphs_body state_body edges_body parallel_body
    retries_body checkpoints_body memory_body interrupts_body otel_body replay_body spring_body
    llm_body rest_body
doc_pages-IsSound = (
  record { flat = refl; leading = refl },
  (
    record { flat = refl; leading = refl },
    (
      record { flat = refl; leading = refl },
      (
        record { flat = refl; leading = refl },
        (
          record { flat = refl; leading = refl },
          (
            record { flat = refl; leading = refl },
            (
              record { flat = refl; leading = refl },
              (
                record { flat = refl; leading = refl },
                (
                  record { flat = refl; leading = refl },
                  (
                    record { flat = refl; leading = refl },
                    (
                      record { flat = refl; leading = refl },
                      (
                        record { flat = refl; leading = refl },
                        (
                          record { flat = refl; leading = refl },
                          (
                            record { flat = refl; leading = refl },
                            (
                              record { flat = refl; leading = refl },
                              (record { flat = refl; leading = refl }, tt),
                            ),
                          ),
                        ),
                      ),
                    ),
                  ),
                ),
              ),
            ),
          ),
        ),
      ),
    ),
  ),
)

body_page-IsSound :
    (b : Bool) (o : Option DocPage) (p : DocPage)
    → ((q : DocPage) → o ≡ some q → IsSound (doc_view q))
    → page_with_body (or_quickstart (property_of b o)) ≡ some p
    → IsSound (doc_view p)
unfolding page_with_body or_quickstart property_of doc_pages
body_page-IsSound b (some q) p h e =
    subst (λ r. IsSound (doc_view r)) (some-injective _ _ e) (h q refl)
body_page-IsSound true none p h e = cc
body_page-IsSound false none p h e =
    subst (λ q. IsSound (doc_view q)) (some-injective _ _ e) doc_pages-IsSound.0

pub docs_view-IsSound : (hash : Text) (n : Node) → docs_view hash ≡ some n → IsSound n
unfolding docs_view doc_page find_property
docs_view-IsSound hash n e =
    let (p, f, g) = >>=-eq-some (doc_page (active_doc hash)) _ e in
    subst IsSound (some-injective _ _ g) (
      docs_frame-IsSound (active_doc hash) (doc_view p) (
        body_page-IsSound (includes inherited_names (active_doc hash))
          (find (λ p. text_eq p.key (active_doc hash)) doc_pages) p
          (λ q h.
            All-find (λ p. IsSound (doc_view p)) (λ p. text_eq p.key (active_doc hash)) doc_pages q
              doc_pages-IsSound h)
          f))
