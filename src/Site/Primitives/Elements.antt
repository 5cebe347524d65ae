-- ===== src/Site/Primitives/Elements.antt =====
-- The components of ui.jsx and icons.jsx: the elements that they return.
use trace_graph.Base.{
  ℕ, Text, codes, text_eq, decimal, List, [], ◌∷◌, ◌++◌, Bool, Option, none, some, if◌then◌else◌,
}
use trace_graph.Site.Markup.{
  a_tag, button_tag, code_tag, div_tag, pre_tag, span_tag, Action, class_name, href_attr,
  inner_html, style_attr, on_click, Node, txt, el, when_text, optional_attr,
}
use trace_graph.Site.Primitives.{badge_class, dot_class, button_class, button_icon_size}

-- `Icon` of icons.jsx: the element in which the icon library's drawing is put after the render.
unfoldable pub icon : (name : Text) (size : ℕ) (class_ : Text) → Node
icon name size class_ =
    el span_tag
      (class_name (codes "inline-flex items-center justify-center " ++ class_)
        ∷ style_attr ((codes "width", decimal size) ∷ (codes "height", decimal size) ∷ [])
        ∷ [])
      []

-- `StatusDot` of ui.jsx.
unfoldable pub status_dot : (tone : Text) (pulse : Bool) → Node
unfolding dot_class
status_dot tone pulse = el span_tag (class_name (dot_class tone pulse) ∷ []) []

-- `Badge` of ui.jsx.
unfoldable pub badge : (tone : Text) (children : List Node) → Node
unfolding badge_class
badge tone children = el span_tag (class_name (badge_class tone) ∷ []) children

-- `Code` of ui.jsx.
unfoldable pub code : (class_ : Text) (children : List Node) → Node
code class_ children =
    el code_tag
      (class_name (
          (codes
            "mono text-[0.92em] px-1.5 py-0.5 rounded bg-ink-100 dark:bg-ink-900 text-ink-800 dark:text-ink-200 ")
          ++ class_)
        ∷ [])
      children

-- `SectionLabel` of ui.jsx.
unfoldable pub section_label : (num : Option Text) (class_ : Text) (children : List Node) → Node
section_label num class_ children =
    el div_tag
      (class_name ((codes "mono text-[11px] uppercase tracking-[0.16em] text-ink-500 ") ++ class_)
        ∷ [])
      (when_text num (λ present.
          (el span_tag (class_name (codes "text-ink-400 mr-2") ∷ [])
            (txt (codes "/ ") ∷ txt present ∷ []))
          ∷ [])
        ++ children)

-- `filename || ''`
unfoldable pub or_blank : Option Text → Text
or_blank none = []
or_blank (some t) = t

-- `CodeBlock` of ui.jsx, whose children are always a text of markup here.
unfoldable pub code_block : (filename : Option Text) (language children : Text) → Node
unfolding or_blank
code_block filename language children =
    el div_tag
      (class_name (codes "rounded-2xl border hairline overflow-hidden bg-ink-950 dark:bg-black/40")
        ∷ [])
      (el div_tag
          (class_name
              (codes "flex items-center justify-between px-4 py-2.5 border-b border-white/10")
            ∷ [])
          (el span_tag (class_name (codes "mono text-[11px] text-white/50") ∷ [])
              (txt (or_blank filename) ∷ [])
            ∷ el span_tag
                (class_name (codes "mono text-[10px] text-white/30 uppercase tracking-wider") ∷ [])
                (txt language ∷ [])
            ∷ [])
        ∷ el pre_tag
            (class_name (codes "code-block p-5 overflow-x-auto scroll-thin text-white/85")
              ∷ inner_html children
              ∷ [])
            []
        ∷ [])

-- The icons and the children of a button.
unfoldable pub button_inner :
    (size : Text) (icon_name icon_right : Option Text) (children : List Node) → List Node
unfolding icon button_icon_size
button_inner size icon_name icon_right children =
    when_text icon_name (λ name. icon name (button_icon_size size) [] ∷ [])
    ++ (children ++ when_text icon_right (λ name. icon name (button_icon_size size) [] ∷ []))

-- `Button` of ui.jsx.
unfoldable pub button :
    (variant size : Text) (icon_name icon_right : Option Text) (as_element : Text)
    (href : Option Text) (action : Option Action) (class_ : Text) (children : List Node)
    → Node
unfolding button_inner button_class
button variant size icon_name icon_right as_element href action class_ children =
    if text_eq as_element (codes "a")
    then el a_tag
        (optional_attr href_attr href
          ++ (class_name (button_class variant size class_) ∷ optional_attr on_click action))
        (button_inner size icon_name icon_right children)
    else el button_tag
        (class_name (button_class variant size class_) ∷ optional_attr on_click action)
        (button_inner size icon_name icon_right children)
