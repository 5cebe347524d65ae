-- ===== src/Site/Docs/Tests.antt =====
-- The theorem on the addresses of the docs, at an id that names no page.
use trace_graph.Base.{◌∷◌, ◌≡◌, refl, [], any, false}
use trace_graph.Site.Highlight.{is_line_end}

no_line_end : any is_line_end (b'f' ∷ b'a' ∷ b'q' ∷ []) ≡ false
unfolding is_line_end
no_line_end = refl
