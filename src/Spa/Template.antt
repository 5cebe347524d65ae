-- ===== src/Spa/Template.antt =====
-- The template literals of app.js: literal text with interpolations, which pass through `esc` or
-- stand as they are.
pub mod Brackets
use Prim.Native.String.{String}
use trace_graph.Base.{Text, codes, List, [], ◌∷◌, ◌++◌, Option, none, some}
use trace_graph.Spa.Escape.{esc}

pub data Piece : Type 0 where
  lit : String → Piece
  escaped plain : Text → Piece

unfoldable pub piece : Piece → Text
piece (lit s) = codes s
piece (escaped t) = esc t
piece (plain t) = t

-- The text of a template.
unfoldable pub markup : List Piece → Text
markup [] = []
markup (p ∷ ps) = piece p ++ markup ps

-- `${esc(v)}` where `v` may be undefined, for which `esc` gives the empty text.
abbrev pub escaped_opt : Option Text → Piece
escaped_opt none = plain []
escaped_opt (some t) = escaped t
