-- ===== src/Spa/Escape.antt =====
-- `esc` of app.js on a string, and the `escape` at the head of `highlightJava` in src/data.jsx.
pub mod Laws
pub mod Attribute
use trace_graph.Base.{Text, ℕ, codes, ◌==◌, if◌then◌else◌, List, [], ◌∷◌, ◌++◌}

-- `s.replace(/c/g, by)` for a single character `c`.
unfoldable pub replace_all : ℕ → Text → Text → Text
replace_all c by [] = []
replace_all c by (x ∷ s) = (if x == c then by else x ∷ []) ++ replace_all c by s

-- Ampersands first, then the two angle brackets.
unfoldable pub esc : Text → Text
esc s =
    replace_all b'>' (codes "&gt;")
      (replace_all b'<' (codes "&lt;") (replace_all b'&' (codes "&amp;") s))
