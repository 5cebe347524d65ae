-- ===== src/Site/App/Sound.antt =====
-- The links of the site, and interactive elements inside others.
pub mod Documents
pub mod Views
pub mod Whole
use trace_graph.Base.{
  ℕ, Text, codes, text_eq, List, [], ◌∷◌, ◌++◌, map, any, all, Bool, true, false, ◌&&◌, ◌||◌,
  Option, none, some, ◌≡◌, refl, subst, get_elem?, find, All, All-find, Bool-cases, inl, inr, sym,
  strip_prefix, split_head, if◌then◌else◌,
}
use mathlib.Core.Option
use mathlib.Core.Option.{some-injective, none-ne-some}
use trace_graph.Value.{Js}
use trace_graph.Spa.Steps.{◌>>=◌, >>=-eq-some}
use trace_graph.Site.Markup.{Node, nodes}
use trace_graph.Site.Markup.Tree.{is_flat, are_flat, links, links_in, attr_links, is_interactive}
use trace_graph.Site.Shell.{
  Shell, parse_route, includes, Content, docs, trace_explorer, studio, api_ref, changelog, home,
  content, show_footer,
}
use trace_graph.Site.Docs.{docs_match}
use trace_graph.Site.Docs.Data.{doc_pages}
use trace_graph.Site.Header.{header}
use trace_graph.Site.Footer.{footer}
use trace_graph.Site.Docs.{item_href, active_doc, doc_page, inherited_names}
use trace_graph.Site.Docs.Data.{docs_tree, DocPage, quickstart_page}
use trace_graph.Site.Docs.Page.{docs_frame, doc_view, docs_view}
use trace_graph.Site.Highlight.{is_line_end}
use trace_graph.Site.Docs.Bodies.{
  quickstart_body, install_body, firstgraph_body, graphs_body, state_body, edges_body,
  parallel_body, retries_body, checkpoints_body, memory_body, interrupts_body, otel_body,
  replay_body, spring_body, llm_body, rest_body,
}
use trace_graph.Site.Labels.{kind_style}
use trace_graph.Site.Labels.Data.{changelog_data}
use trace_graph.Site.Labels.Notes.{changelog_page, release_sections, note_items}
use trace_graph.Site.Explorer.{fork_message}
use trace_graph.Site.Explorer.Data.{Step, steps, node_layout, edges, execution_id}
use trace_graph.Site.Explorer.GraphView.{trace_graph_svg, edge_nodes, place_at}
use trace_graph.Site.Explorer.Runs.{trace_runs}
use trace_graph.Site.Explorer.Inspect.{inspector_panel}
use trace_graph.Site.Explorer.Page.{explorer, run_options, explorer_frame, top_bar, graph_panel}
use trace_graph.Site.Explorer.Panels.{step_list_panel, logs_panel}
use trace_graph.Site.Explorer.Timeline.{timeline_panel}
use trace_graph.Site.Studio.Data.{studio_nodes}
use trace_graph.Site.Studio.Canvas.{studio_graph_svg, canvas_edges}
use trace_graph.Site.Studio.Panel.{props_panel}
use trace_graph.Site.Studio.Page.{studio_page, studio_frame, graph_size}
use trace_graph.Site.Home.{home_page}
use trace_graph.Site.Labels.Api
use trace_graph.Site.App.{Engine, Pages, Site, page, app_frame, app, footer_if}

-- The anchors of the list "On this page" of the docs.
abbrev pub anchors : List Text
anchors = codes "#install" ∷ codes "#state" ∷ codes "#build" ∷ codes "#run" ∷ []

-- The page of the docs that an address names, where it names one, is there.
unfoldable pub names_doc : Option Text → Bool
names_doc none = true
names_doc (some id) = any (λ p. text_eq p.key id) doc_pages

-- The first segment of an address, where an empty one means the home page, is the route that it
-- opens.
unfoldable pub opens_segment : Text → Option Text → Bool
opens_segment href none = false
opens_segment href (some []) = text_eq (parse_route href) (codes "home")
opens_segment href (some (c ∷ rest)) = text_eq (parse_route href) (split_head b'/' (c ∷ rest))

-- An address `#/…` that opens the page that it names: none falls back to the home page or to the
-- first page of the docs.
unfoldable pub opens_named_page : Text → Bool
opens_named_page href =
    opens_segment href (strip_prefix (codes "#/") href) && names_doc (docs_match href)

-- A link leads to the page that it names, or is one of the two kinds that name none: the bare "#"
-- of links that are not there yet, and the anchors of the docs.
unfoldable pub leads : Text → Bool
leads href = opens_named_page href || (text_eq href (codes "#") || any (text_eq href) anchors)

-- No interactive element stands in another one, and every link leads.
pub record IsSound (n : Node) : Type 0 where
  pub flat : is_flat false n ≡ true
  pub leading : all leads (links n) ≡ true

pub all-append {ℓ} :
    {A : Type ℓ} (p : A → Bool) (xs ys : List A) → all p (xs ++ ys) ≡ (all p xs && all p ys)
all-append p [] ys = refl
all-append p (x ∷ xs) ys = rw (all-append p xs ys) (and_assoc (p x) (all p xs) (all p ys))
  where
    and_assoc : (a b c : Bool) → (a && (b && c)) ≡ ((a && b) && c)
    and_assoc true b c = refl
    and_assoc false b c = refl
