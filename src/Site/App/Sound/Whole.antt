-- ===== src/Site/App/Sound/Whole.antt =====
-- The whole site: its links and interactive elements.
use trace_graph.Site.App.Sound.{
  leads, opens_named_page, names_doc, opens_segment, IsSound, all-append,
}
use trace_graph.Site.App.Sound.Documents.{docs_view-IsSound}
use trace_graph.Site.App.Sound.Views.{explorer-IsSound, studio_page-IsSound}
use trace_graph.Base.{
  Text, codes, text_eq, [], ◌++◌, all, Bool, true, false, some, ◌≡◌, refl, subst, strip_prefix,
  split_head,
}
use mathlib.Core.Option.{some-injective}
use trace_graph.Spa.Steps.{>>=-eq-some}
use trace_graph.Site.Markup.{Node, nodes}
use trace_graph.Site.Markup.Tree.{is_flat, are_flat, links, links_in, attr_links, is_interactive}
use trace_graph.Site.Shell.{
  parse_route, Content, docs, trace_explorer, studio, api_ref, changelog, home, content,
  show_footer,
}
use trace_graph.Site.Docs.{docs_match}
use trace_graph.Site.Docs.Data.{doc_pages}
use trace_graph.Site.Header.{header}
use trace_graph.Site.Footer.{footer}
use trace_graph.Site.Highlight.{is_line_end}
use trace_graph.Site.Labels.{kind_style}
use trace_graph.Site.Labels.Data.{changelog_data}
use trace_graph.Site.Labels.Notes.{changelog_page, release_sections, note_items}
use trace_graph.Site.Home.{home_page}
use trace_graph.Site.Labels.Api
use trace_graph.Site.App.{Engine, Pages, Site, page, app_frame, app, footer_if}

home-IsSound : IsSound home_page
unfolding home_page is_flat links is_interactive attr_links leads opens_named_page names_doc
    opens_segment doc_pages parse_route docs_match text_eq codes strip_prefix split_head
home-IsSound = record { flat = refl; leading = refl }

api-IsSound : IsSound Api.api_ref
unfolding Api.api_ref is_flat links is_interactive attr_links leads text_eq codes
api-IsSound = record { flat = refl; leading = refl }

changelog-IsSound : (n : Node) → changelog_page ≡ some n → IsSound n
unfolding changelog_page changelog_data release_sections note_items kind_style is_flat links
    is_interactive attr_links text_eq codes
changelog-IsSound n e =
    subst IsSound (some-injective _ _ e) (record { flat = refl; leading = refl })

footer_if-leads :
    (b : Bool)
    → (are_flat false (nodes (footer_if b)) ≡ true)
      × (all leads (links_in (nodes (footer_if b))) ≡ true)
unfolding footer_if footer is_flat links is_interactive attr_links leads opens_named_page names_doc
    opens_segment doc_pages parse_route docs_match text_eq codes strip_prefix split_head is_line_end
footer_if-leads true = (refl, refl)
footer_if-leads false = (refl, refl)

app_frame-IsSound : (route theme : Text) (n : Node) → IsSound n → IsSound (app_frame route theme n)
unfolding app_frame header is_flat links is_interactive attr_links leads opens_named_page names_doc
    opens_segment doc_pages parse_route docs_match text_eq codes strip_prefix split_head is_line_end
app_frame-IsSound route theme n s =
    let (flat, leading) = footer_if-leads (show_footer route) in
    record {
      flat = rw (s.flat, flat) refl;
      leading =
          rw
            (
              all-append leads (links n ++ []) (links_in (nodes (footer_if (show_footer route)))),
              all-append leads (links n) [],
              s.leading,
              leading,
            )
            refl;
    }

page-IsSound :
    (engine : Engine) (hash : Text) (pages : Pages) (c : Content) (n : Node)
    → page engine hash pages c ≡ some n
    → IsSound n
unfolding page
page-IsSound engine hash pages docs n e = docs_view-IsSound hash n e
page-IsSound engine hash pages trace_explorer n e =
    explorer-IsSound engine.percent engine.wide_percent _ _ pages.active_idx n e
page-IsSound engine hash pages studio n e =
    studio_page-IsSound pages.mermaid pages.complexity pages.active_name n e
page-IsSound engine hash pages api_ref n e = subst IsSound (some-injective _ _ e) api-IsSound
page-IsSound engine hash pages changelog n e = changelog-IsSound n e
page-IsSound engine hash pages home n e = subst IsSound (some-injective _ _ e) home-IsSound

-- Whatever the site renders, in any state of the shell and of the pages: no link, button or list
-- stands inside another one, and every link leads to the page that its address names, none to the
-- home page or the first page of the docs for want of a page. Two kinds of links name no page: the
-- bare "#" and the anchors of the docs.
pub app-IsSound : (engine : Engine) (s : Site) (n : Node) → app engine s ≡ some n → IsSound n
unfolding app
app-IsSound engine s n e =
    let (m, f, g) =
      >>=-eq-some (page engine s.shell.hash s.pages (content s.shell.route))
        (λ m. some (app_frame s.shell.route s.shell.theme m)) e in
    subst IsSound (some-injective _ _ g) (
      app_frame-IsSound s.shell.route s.shell.theme m
        (page-IsSound engine _ s.pages (content s.shell.route) m f))
