-- ===== src/Site/Highlight/Keeps/Passes.antt =====
-- All passes of the highlighter.
use trace_graph.Site.Highlight.Keeps.{Keeps, Keeps-trans, kw-IsEven, ty-IsEven}
use trace_graph.Site.Highlight.Keeps.Words.{comments-Keeps, strings-Keeps, words-Keeps}
use trace_graph.Site.Highlight.Keeps.Numbers.{numbers-Keeps}
use trace_graph.Base.{ℕ, ◌≤◌, Text, codes, count, count-append, [], ◌∷◌, false, ◌≡◌, ◌≢◌, arith}
use trace_graph.Spa.Escape.{esc}
use trace_graph.Spa.Escape.Laws.{esc_char, esc_chars, esc-eq-esc_chars, count-esc}
use trace_graph.Site.Highlight.{
  mark_comments, mark_strings, is_keyword, is_type_name, mark_words, in_run, highlight_java,
}

count-esc_char :
    (c d : ℕ) → d ≢ b'&' → d ≢ b'<' → d ≢ b'>' → count d (c ∷ []) ≤ count d (esc_char c)
unfolding count esc_char codes
count-esc_char c d h l g = ground arith

count-esc_chars :
    (s : Text) (d : ℕ) → d ≢ b'&' → d ≢ b'<' → d ≢ b'>' → count d s ≤ count d (esc_chars s)
unfolding esc_chars
count-esc_chars [] d h l g = omega arith
count-esc_chars (c ∷ s) d h l g = omega (
  arith,
  count-append d (c ∷ []) s,
  count-append d (esc_char c) (esc_chars s),
  count-esc_char c d h l g,
  count-esc_chars s d h l g,
)

-- The five passes, one after the other.
passes : (src : Text) → Keeps (esc src) (highlight_java src)
unfolding highlight_java
passes src = Keeps-trans _ _ _ (comments-Keeps false (esc src)) (
    Keeps-trans _ _ _ (strings-Keeps 0 comments) (
      Keeps-trans _ _ _ (words-Keeps is_keyword (codes "kw") [] strings kw-IsEven) (
        Keeps-trans _ _ _ (words-Keeps is_type_name (codes "ty") [] keywords ty-IsEven)
          (numbers-Keeps (in_run []) types))))
  where
    comments : Text
    comments = mark_comments false (esc src)

    strings : Text
    strings = mark_strings 0 comments

    keywords : Text
    keywords = mark_words is_keyword (codes "kw") [] strings

    types : Text
    types = mark_words is_type_name (codes "ty") [] keywords

-- The markup of a code sample has as many `<` as `>`, and every character that is not escaped, one
-- other than `&`, `<` and `>`, occurs in it at least as often as in the sample.
pub highlight_java-Keeps :
    (src : Text) (d : ℕ)
    → d ≢ b'&'
    → d ≢ b'<'
    → d ≢ b'>'
    → (count b'<' (highlight_java src) ≡ count b'>' (highlight_java src))
      × (count d src ≤ count d (highlight_java src))
unfolding highlight_java
highlight_java-Keeps src d h l g =
    let k = passes src in
    (
      omega (arith, k.even, (count-esc src).0, (count-esc src).1),
      omega (arith, k.kept d, unescaped),
    )
  where
    unescaped : count d src ≤ count d (esc src)
    unescaped = rw esc-eq-esc_chars (count-esc_chars src d h l g)
