-- ===== src/Site/Labels/Notes.antt =====
-- `Changelog` and `KindTag` of changelog.jsx: the page of the releases.
use trace_graph.Base.{ℕ, suc, codes, decimal, List, [], ◌∷◌, ◌++◌, Option, some, if◌then◌else◌}
use trace_graph.Site.Markup.{
  div_tag, h1_tag, li_tag, p_tag, section_tag, span_tag, ul_tag, class_name, Node, txt, keyed, el,
}
use trace_graph.Site.Primitives.Elements.{badge}
use trace_graph.Site.Labels.{KindStyle, kind_style, is_latest}
use trace_graph.Site.Labels.Data.{Note, Release, changelog_data}
use trace_graph.Spa.Steps.{◌>>=◌}

-- The element of `KindTag`, by the entry of its kind.
unfoldable pub kind_tag : (style : KindStyle) → Node
kind_tag style =
    el span_tag
      (class_name (
          (codes
            "mono text-[10.5px] px-2 h-[20px] inline-flex items-center rounded uppercase tracking-wider mt-0.5 flex-shrink-0 ")
          ++ style.cls)
        ∷ [])
      (txt style.label ∷ [])

unfoldable pub note_item : (j : ℕ) (n : Note) (tag : Node) → Node
note_item j n tag = keyed (decimal j) (
    el li_tag
      (class_name (
          codes
            "flex items-start gap-3 text-[14.5px] text-ink-700 dark:text-ink-300 leading-relaxed")
        ∷ [])
      (tag ∷ el span_tag [] (txt n.text ∷ []) ∷ []))

-- The notes of a release; `none` is the TypeError of a kind that is an inherited name.
unfoldable pub note_items : ℕ → List Note → Option (List Node)
unfolding kind_tag note_item kind_style
note_items j [] = some []
note_items j (n ∷ ns) = do
  style ← kind_style n.kind
  rest ← note_items (suc j) ns
  some (note_item j n (kind_tag style) ∷ rest)

unfoldable pub release_section : (rel : Release) (notes : List Node) → Node
unfolding badge is_latest
release_section rel notes = keyed rel.v (
    el section_tag (class_name (codes "relative") ∷ []) (
      el div_tag (class_name (codes "grid md:grid-cols-[180px_1fr] gap-8") ∷ []) (
        el div_tag (class_name (codes "md:sticky md:top-20 md:self-start") ∷ []) (
          el div_tag (class_name (codes "flex items-center gap-2") ∷ []) (
            el span_tag
              (class_name
                  (codes "mono text-[24px] tracking-tight text-ink-950 dark:text-white font-medium")
                ∷ [])
              (txt (codes "v") ∷ txt rel.v ∷ [])
            ∷ (if is_latest rel
                then (badge (codes "accent") (txt (codes "latest") ∷ [])) ∷ []
                else []))
          ∷ el div_tag (class_name (codes "mono text-[12px] text-ink-500 mt-1.5") ∷ [])
              (txt rel.date ∷ [])
          ∷ [])
        ∷ el ul_tag (class_name (codes "space-y-3") ∷ []) notes
        ∷ [])
      ∷ []))

unfoldable pub release_sections : List Release → Option (List Node)
unfolding release_section note_items
release_sections [] = some []
release_sections (rel ∷ rels) = do
  notes ← note_items 0 rel.notes
  rest ← release_sections rels
  some (release_section rel notes ∷ rest)

unfoldable pub changelog_frame : (releases : List Node) → Node
changelog_frame releases =
    el div_tag (class_name (codes "max-w-[920px] mx-auto px-6 lg:px-8 py-16 fade-up") ∷ []) (
      el div_tag
        (class_name (codes "mono text-[11px] uppercase tracking-[0.14em] text-ink-500 mb-4") ∷ [])
        (txt (codes "PROJECT / CHANGELOG") ∷ [])
      ∷ el h1_tag (class_name (codes "display-tight text-[56px] text-ink-950 dark:text-white") ∷ [])
          (txt (codes "Changelog") ∷ [])
      ∷ el p_tag
          (class_name (codes "mt-4 text-[16px] text-ink-600 dark:text-ink-400 max-w-xl") ∷ [])
          (txt (
              codes
                "Release notes, breaking changes, and upgrade tips. We follow semver; pre-1.0 minor bumps may include breaking changes (always called out below).")
            ∷ [])
      ∷ el div_tag (class_name (codes "mt-16 space-y-20") ∷ []) releases
      ∷ [])

-- `Changelog`.
unfoldable pub changelog_page : Option Node
unfolding changelog_frame release_sections changelog_data
changelog_page = do releases ← release_sections changelog_data; some (changelog_frame releases)
