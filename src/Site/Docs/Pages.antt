-- ===== src/Site/Docs/Pages.antt =====
-- The addresses of docs.jsx and the pages that they show.
use trace_graph.Base.{
  ℕ, inl, Text, codes, text_eq, strip_prefix, any, if◌then◌else◌, List, ◌∷◌, ◌++◌, false, none,
  some, split_head, ap, All, ◌≡◌, refl,
}
use mathlib.Core.List.{flat_map}
use trace_graph.Site.Shell.{parse_route, drop_leading, route_of_path, known_or_home}
use trace_graph.Site.Shell.Routes.{count_true, parse_route-subpage}
use trace_graph.Site.Highlight.{is_line_end}
use trace_graph.Site.Docs.{
  docs_match, docs_id, id_or_quickstart, active_doc, doc_page, item_href, item_marks,
}
use trace_graph.Site.Docs.Data.{DocItem, DocSection, DocPage, docs_tree, doc_pages}

-- The entries of the sidebar, from top to bottom.
abbrev pub sidebar : List DocItem
sidebar = flat_map DocSection.items docs_tree

-- The address opens the docs with a page of its own, and one entry of the sidebar is marked.
abbrev pub OpensOwnPage : DocItem → Type 0
OpensOwnPage it =
    (parse_route (item_href it) ≡ codes "docs")
    × ((p : DocPage) × (doc_page (active_doc (item_href it)) ≡ some p) × (p.key ≡ it.id))
    × (count_true (item_marks (active_doc (item_href it)) sidebar) ≡ 1)

-- Every entry of the sidebar leads to the page with its id, and to a view in which exactly one
-- entry is marked.
pub sidebar-OpensOwnPage : All OpensOwnPage sidebar
unfolding docs_tree item_href parse_route split_head is_line_end id_or_quickstart docs_id
    drop_leading route_of_path known_or_home active_doc docs_match doc_page doc_pages codes text_eq
    strip_prefix item_marks flat_map
sidebar-OpensOwnPage = (
  (refl, (_, refl, refl), refl),
  (
    (refl, (_, refl, refl), refl),
    (
      (refl, (_, refl, refl), refl),
      (
        (refl, (_, refl, refl), refl),
        (
          (refl, (_, refl, refl), refl),
          (
            (refl, (_, refl, refl), refl),
            (
              (refl, (_, refl, refl), refl),
              (
                (refl, (_, refl, refl), refl),
                (
                  (refl, (_, refl, refl), refl),
                  (
                    (refl, (_, refl, refl), refl),
                    (
                      (refl, (_, refl, refl), refl),
                      (
                        (refl, (_, refl, refl), refl),
                        (
                          (refl, (_, refl, refl), refl),
                          (
                            (refl, (_, refl, refl), refl),
                            ((refl, (_, refl, refl), refl), ((refl, (_, refl, refl), refl), tt)),
                          ),
                        ),
                      ),
                    ),
                  ),
                ),
              ),
            ),
          ),
        ),
      ),
    ),
  ),
)

active_doc-id :
    (c : ℕ) (id : Text)
    → any is_line_end (c ∷ id) ≡ false
    → active_doc (codes "#/docs/" ++ (c ∷ id)) ≡ c ∷ id
unfolding active_doc docs_match docs_id id_or_quickstart strip_prefix codes
active_doc-id c id h = ap (λ b. id_or_quickstart (if b then none else some (c ∷ id))) h

-- The address `#/docs/` with an id, one with no line end in it, opens the docs with that id active.
pub active_doc-address :
    (c : ℕ) (id : Text)
    → any is_line_end (c ∷ id) ≡ false
    → (parse_route (codes "#/docs/" ++ (c ∷ id)) ≡ codes "docs")
      × (active_doc (codes "#/docs/" ++ (c ∷ id)) ≡ c ∷ id)
unfolding codes
active_doc-address c id h =
    (parse_route-subpage (codes "docs") (c ∷ id) (inl refl), active_doc-id c id h)
