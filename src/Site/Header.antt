-- ===== src/Site/Header.antt =====
-- header.jsx: the bar at the top of every page.
use trace_graph.Base.{Text, codes, text_eq, [], ◌∷◌, ◌++◌, none, some, map, if◌then◌else◌}
use trace_graph.Site.Markup.{
  a_tag, button_tag, circle_tag, div_tag, header_tag, nav_tag, path_tag, span_tag, svg_tag,
  set_theme, class_name, href_attr, on_click, attr, Node, txt, keyed, el,
}
use trace_graph.Site.Primitives.Elements.{icon, button}
use trace_graph.Site.Shell.{nav, other_theme}

-- `Logo`.
unfoldable pub logo : Node
logo =
    el svg_tag
      (attr (codes "viewBox") (codes "0 0 28 28")
        ∷ class_name (codes "w-6 h-6 text-ink-950 dark:text-white")
        ∷ attr (codes "fill") (codes "none")
        ∷ [])
      (el circle_tag
          (attr (codes "cx") (codes "6")
            ∷ attr (codes "cy") (codes "7")
            ∷ attr (codes "r") (codes "2.4")
            ∷ attr (codes "fill") (codes "currentColor")
            ∷ [])
          []
        ∷ el circle_tag
            (attr (codes "cx") (codes "22")
              ∷ attr (codes "cy") (codes "7")
              ∷ attr (codes "r") (codes "2.4")
              ∷ attr (codes "fill") (codes "currentColor")
              ∷ [])
            []
        ∷ el circle_tag
            (attr (codes "cx") (codes "14")
              ∷ attr (codes "cy") (codes "14")
              ∷ attr (codes "r") (codes "2.4")
              ∷ attr (codes "stroke") (codes "currentColor")
              ∷ attr (codes "strokeWidth") (codes "1.6")
              ∷ [])
            []
        ∷ el circle_tag
            (attr (codes "cx") (codes "6")
              ∷ attr (codes "cy") (codes "21")
              ∷ attr (codes "r") (codes "2.4")
              ∷ attr (codes "stroke") (codes "currentColor")
              ∷ attr (codes "strokeWidth") (codes "1.6")
              ∷ [])
            []
        ∷ el circle_tag
            (attr (codes "cx") (codes "22")
              ∷ attr (codes "cy") (codes "21")
              ∷ attr (codes "r") (codes "2.4")
              ∷ attr (codes "stroke") (codes "currentColor")
              ∷ attr (codes "strokeWidth") (codes "1.6")
              ∷ [])
            []
        ∷ el path_tag
            (attr (codes "d")
                (codes "M6 9.4 L13 12.4 M22 9.4 L15 12.4 M13 15.6 L6 18.6 M15 15.6 L22 18.6")
              ∷ attr (codes "stroke") (codes "currentColor")
              ∷ attr (codes "strokeWidth") (codes "1.4")
              ∷ [])
            []
        ∷ [])

-- `Header`.
unfoldable pub header : (route theme : Text) → Node
unfolding icon button logo nav other_theme
header route theme =
    el header_tag
      (class_name (
          codes
            "sticky top-0 z-50 backdrop-blur-md bg-white/75 dark:bg-ink-950/75 border-b hairline")
        ∷ [])
      (el div_tag
          (class_name (codes "max-w-[1500px] mx-auto px-6 lg:px-8 h-14 flex items-center gap-6")
            ∷ [])
          (el a_tag
              (href_attr (codes "#/") ∷ class_name (codes "flex items-center gap-2.5 group") ∷ [])
              (logo
                ∷ el span_tag
                    (class_name (
                        codes "font-medium tracking-tight text-ink-950 dark:text-white text-[15px]")
                      ∷ [])
                    (txt (codes "TraceGraph") ∷ [])
                ∷ el span_tag
                    (class_name (
                        codes
                          "mono text-[10.5px] text-ink-500 px-1.5 h-[18px] inline-flex items-center rounded bg-ink-100 dark:bg-ink-900")
                      ∷ [])
                    (txt (codes "v0.3.0") ∷ [])
                ∷ [])
            ∷ el nav_tag (class_name (codes "hidden md:flex items-center gap-1 ml-2") ∷ []) (
                map
                  (λ n. keyed n.id (
                    el a_tag
                      (href_attr n.href
                        ∷ class_name (
                            (codes
                              "px-3 h-8 inline-flex items-center rounded-md text-[13px] transition-colors ")
                            ++ (if (text_eq route n.id)
                                then codes "text-ink-950 dark:text-white bg-ink-100 dark:bg-ink-900"
                                else codes
                                    "text-ink-600 dark:text-ink-400 hover:text-ink-950 dark:hover:text-white"))
                        ∷ [])
                      (txt n.label ∷ [])))
                  nav)
            ∷ el div_tag (class_name (codes "flex-1") ∷ []) []
            ∷ el div_tag
                (class_name
                    (codes "hidden md:flex items-center gap-2 mono text-[12px] text-ink-500")
                  ∷ [])
                (el span_tag (class_name (codes "hidden lg:inline") ∷ []) (txt (codes "⌘K") ∷ [])
                  ∷ [])
            ∷ el div_tag (class_name (codes "flex items-center gap-2") ∷ []) (
                el button_tag
                  (on_click (set_theme (other_theme theme))
                    ∷ class_name (
                        codes
                          "w-8 h-8 rounded-md inline-flex items-center justify-center text-ink-600 dark:text-ink-400 hover:bg-ink-100 dark:hover:bg-ink-900")
                    ∷ attr (codes "aria-label") (codes "Toggle theme")
                    ∷ [])
                  (icon (if (text_eq theme (codes "dark")) then codes "sun" else codes "moon") 15 []
                    ∷ [])
                ∷ el a_tag
                    (href_attr (codes "#")
                      ∷ class_name (
                          codes
                            "w-8 h-8 rounded-md inline-flex items-center justify-center text-ink-600 dark:text-ink-400 hover:bg-ink-100 dark:hover:bg-ink-900")
                      ∷ attr (codes "aria-label") (codes "GitHub")
                      ∷ [])
                    (icon (codes "github") 15 [] ∷ [])
                ∷ button (codes "primary") (codes "sm") none none (codes "a")
                    (some (codes "#/docs/quickstart")) none (codes "hidden sm:inline-flex")
                    (txt (codes "Quickstart") ∷ [])
                ∷ [])
            ∷ [])
        ∷ [])
