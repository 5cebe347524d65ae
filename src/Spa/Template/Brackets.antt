-- ===== src/Spa/Template/Brackets.antt =====
-- The tags of a template are those of its literals and of what it interpolates with no `esc`.
use trace_graph.Base.{
  ℕ, Text, codes, count, count-append, count-decimal, decimal, if◌then◌else◌, Bool, true, false,
  List, [], ◌∷◌, ◌++◌, ◌≡◌, refl, ◌+◌, arith, append_assoc, ◌∙◌, sym,
}
use trace_graph.Spa.Escape.Laws.{count-esc}
use trace_graph.Spa.Template.{Piece, lit, escaped, plain, piece, markup}

-- How often a character occurs in the pieces that are not escaped.
unfoldable pub open_count : ℕ → List Piece → ℕ
open_count c [] = 0
open_count c (lit s ∷ ps) = count c (codes s) + open_count c ps
open_count c (escaped t ∷ ps) = open_count c ps
open_count c (plain t ∷ ps) = count c t + open_count c ps

pub open_count-append :
    (c : ℕ) (ps qs : List Piece) → open_count c (ps ++ qs) ≡ open_count c ps + open_count c qs
unfolding open_count
open_count-append c [] qs = omega arith
open_count-append c (lit s ∷ ps) qs = omega (arith, open_count-append c ps qs)
open_count-append c (escaped t ∷ ps) qs = omega (arith, open_count-append c ps qs)
open_count-append c (plain t ∷ ps) qs = omega (arith, open_count-append c ps qs)

pub markup-append : (ps qs : List Piece) → markup (ps ++ qs) ≡ markup ps ++ markup qs
unfolding markup
markup-append [] qs = refl
markup-append (p ∷ ps) qs =
    rw (markup-append ps qs) (sym (append_assoc (piece p) (markup ps) (markup qs)))

count-markup_lt : (ps : List Piece) → count b'<' (markup ps) ≡ open_count b'<' ps
unfolding markup piece open_count
count-markup_lt [] = unfold count in refl
count-markup_lt (lit s ∷ ps) = rw count-append (omega (arith, count-markup_lt ps))
count-markup_lt (escaped t ∷ ps) =
    rw count-append (omega (arith, count-markup_lt ps, (count-esc t).0))
count-markup_lt (plain t ∷ ps) = rw count-append (omega (arith, count-markup_lt ps))

count-markup_gt : (ps : List Piece) → count b'>' (markup ps) ≡ open_count b'>' ps
unfolding markup piece open_count
count-markup_gt [] = unfold count in refl
count-markup_gt (lit s ∷ ps) = rw count-append (omega (arith, count-markup_gt ps))
count-markup_gt (escaped t ∷ ps) =
    rw count-append (omega (arith, count-markup_gt ps, (count-esc t).1))
count-markup_gt (plain t ∷ ps) = rw count-append (omega (arith, count-markup_gt ps))

-- How often each of the two angle brackets occurs in a text.
abbrev pub HasBrackets : Text → ℕ → Type 0
HasBrackets s n = (count b'<' s ≡ n) × (count b'>' s ≡ n)

pub HasBrackets-append :
    (s t : Text) (m n : ℕ) → HasBrackets s m → HasBrackets t n → HasBrackets (s ++ t) (m + n)
HasBrackets-append s t m n (p, q) (p', q') =
    (rw count-append (omega arith), rw count-append (omega arith))

pub HasBrackets-decimal : (n : ℕ) → HasBrackets (decimal n) 0
HasBrackets-decimal n = (count-decimal b'<' n (omega arith), count-decimal b'>' n (omega arith))

-- A choice between two texts without brackets.
pub HasBrackets-if :
    (b : Bool) (s t : Text) → HasBrackets s 0 → HasBrackets t 0 → HasBrackets (if b then s else t) 0
HasBrackets-if true s t h k = h
HasBrackets-if false s t h k = k

-- The same of the pieces that are not escaped.
abbrev pub Opens : List Piece → ℕ → Type 0
Opens ps n = (open_count b'<' ps ≡ n) × (open_count b'>' ps ≡ n)

pub Opens-append :
    (ps qs : List Piece) (m n : ℕ) → Opens ps m → Opens qs n → Opens (ps ++ qs) (m + n)
Opens-append ps qs m n (p, q) (p', q') =
    (rw open_count-append (omega arith), rw open_count-append (omega arith))

-- The tags of a text that a template makes.
pub markup-HasBrackets : (ps : List Piece) (n : ℕ) → Opens ps n → HasBrackets (markup ps) n
markup-HasBrackets ps n (p, q) = (count-markup_lt ps ∙ p, count-markup_gt ps ∙ q)
