-- ===== src/Site/Highlight/Comment.antt =====
-- What the highlighter makes of a line comment: later passes mark up the tags of earlier ones.
use trace_graph.Base.{
  ℕ, Text, codes, text_eq, starts_with, ◌==◌, [], ◌∷◌, ◌++◌, Bool, true, false, ◌≡◌, ◌≢◌, refl, All,
  arith, ap, ◌∙◌, ==_iff, Bool-cases, inl, inr,
}
use trace_graph.Spa.Escape.{esc}
use trace_graph.Spa.Escape.Laws.{esc_char, esc_chars, esc-eq-esc_chars}
use trace_graph.Site.Highlight.{
  span_open, span_close, mark_comments, string_length, mark_strings, is_digit, is_upper, is_word,
  kws, is_keyword, is_type_name, marked, flush, mark_words, in_run, is_number, flush_scan,
  mark_numbers, highlight_java,
}

-- A character that no pass looks for: no part of a word, none of `&`, `<`, `>`, no quote and no
-- line feed.
pub record IsInert (c : ℕ) : Type 0 where
  pub word : is_word c ≡ false
  pub amp : c ≢ b'&'
  pub lt : c ≢ b'<'
  pub gt : c ≢ b'>'
  pub quote : c ≢ b'"'
  pub feed : c ≢ 10

esc_char-IsInert : (c : ℕ) → IsInert c → esc_char c ≡ c ∷ []
unfolding esc_char
esc_char-IsInert c h = let n = h.amp in let m = h.lt in let k = h.gt in ground arith

esc_chars-IsInert : (t : Text) → All IsInert t → esc_chars t ≡ t
unfolding esc_chars
esc_chars-IsInert [] h = refl
esc_chars-IsInert (c ∷ t) (p, h) = rw (esc_char-IsInert c p) (ap (c ∷◌) (esc_chars-IsInert t h))

esc_comment : (t : Text) → All IsInert t → esc (codes "//" ++ t) ≡ codes "//" ++ t
unfolding codes
esc_comment t h =
    esc-eq-esc_chars (codes "//" ++ t)
    ∙ unfold esc_chars esc_char in ap (λ x. b'/' ∷ b'/' ∷ x) (esc_chars-IsInert t h)

mark_comments-IsInert : (t : Text) → All IsInert t → mark_comments true t ≡ t ++ span_close
unfolding mark_comments
mark_comments-IsInert [] h = refl
mark_comments-IsInert (c ∷ t) (p, h) = elim (Bool-cases (c == 10)) [
  | inl e ↦ absurd (p.feed ((==_iff c 10).0 e))
  | inr e ↦ rw (e, mark_comments) (ap (c ∷◌) (mark_comments-IsInert t h))
]

mark_strings-IsInert :
    (t u : Text) → All IsInert t → mark_strings 0 (t ++ u) ≡ t ++ mark_strings 0 u
unfolding mark_strings
mark_strings-IsInert [] u h = refl
mark_strings-IsInert (c ∷ t) u (p, h) = elim (Bool-cases (c == b'"')) [
  | inl e ↦ absurd (p.quote ((==_iff c b'"').0 e))
  | inr e ↦ rw (e, mark_strings) (ap (c ∷◌) (mark_strings-IsInert t u h))
]

mark_words-IsInert :
    (p : Text → Bool) (cls t u : Text)
    → p [] ≡ false
    → All IsInert t
    → mark_words p cls [] (t ++ u) ≡ t ++ mark_words p cls [] u
unfolding mark_words flush
mark_words-IsInert p cls [] u e h = refl
mark_words-IsInert p cls (c ∷ t) u e (q, h) =
    rw (q.word, mark_words) (rw (e, flush) (ap (c ∷◌) (mark_words-IsInert p cls t u e h)))

mark_numbers-IsInert :
    (t u : Text)
    → All IsInert t
    → mark_numbers (in_run []) (t ++ u) ≡ t ++ mark_numbers (in_run []) u
unfolding mark_numbers flush is_number
mark_numbers-IsInert [] u h = refl
mark_numbers-IsInert (c ∷ t) u (q, h) = elim (Bool-cases (c == b'.')) [
  | inl e ↦
      rw (q.word, mark_numbers) (rw (e, mark_numbers) (ap (c ∷◌) (mark_numbers-IsInert t u h)))
  | inr e ↦
      rw (q.word, mark_numbers) (rw (e, mark_numbers) (ap (c ∷◌) (mark_numbers-IsInert t u h)))
]

-- The five passes on a comment, one after the other.
after_comments :
    (t : Text)
    → All IsInert t
    → mark_comments false (codes "//" ++ t)
      ≡ codes "<span class=\"cm\">//" ++ (t ++ codes "</span>")
unfolding mark_comments codes span_open span_close starts_with
after_comments t h = ap (λ x. codes "<span class=\"cm\">//" ++ x) (mark_comments-IsInert t h)

after_strings :
    (t : Text)
    → All IsInert t
    → mark_strings 0 (codes "<span class=\"cm\">//" ++ (t ++ codes "</span>"))
      ≡ codes "<span class=<span class=\"st\">\"cm\"</span>>//" ++ (t ++ codes "</span>")
unfolding mark_strings string_length codes span_open span_close
after_strings t h =
    ap (λ x. codes "<span class=<span class=\"st\">\"cm\"</span>>//" ++ x)
      (mark_strings-IsInert t (codes "</span>") h)

abbrev broken : Text → Text
broken t =
    codes
      "<span <span class=\"kw\">class</span>=<span <span class=\"kw\">class</span>=\"st\">\"cm\"</span>>//"
    ++ (t ++ codes "</span>")

after_keywords :
    (t : Text)
    → All IsInert t
    → mark_words is_keyword
        (codes "kw")
        []
        (codes "<span class=<span class=\"st\">\"cm\"</span>>//" ++ (t ++ codes "</span>"))
      ≡ broken t
unfolding mark_words flush marked is_keyword kws text_eq is_word codes span_open span_close
after_keywords t h =
    ap
      (λ x.
        codes
          "<span <span class=\"kw\">class</span>=<span <span class=\"kw\">class</span>=\"st\">\"cm\"</span>>//"
        ++ x)
      (mark_words-IsInert is_keyword (codes "kw") t (codes "</span>") refl h)

after_types :
    (t : Text) → All IsInert t → mark_words is_type_name (codes "ty") [] (broken t) ≡ broken t
unfolding mark_words flush is_type_name is_word is_upper codes
after_types t h =
    ap
      (λ x.
        codes
          "<span <span class=\"kw\">class</span>=<span <span class=\"kw\">class</span>=\"st\">\"cm\"</span>>//"
        ++ x)
      (mark_words-IsInert is_type_name (codes "ty") t (codes "</span>") refl h)

after_numbers : (t : Text) → All IsInert t → mark_numbers (in_run []) (broken t) ≡ broken t
unfolding mark_numbers flush_scan flush is_number is_word is_digit codes
after_numbers t h =
    ap
      (λ x.
        codes
          "<span <span class=\"kw\">class</span>=<span <span class=\"kw\">class</span>=\"st\">\"cm\"</span>>//"
        ++ x)
      (mark_numbers-IsInert t (codes "</span>") h)

-- The markup of a line comment is broken, for every comment whose characters no pass looks for:
-- the class of its span is taken for a string, and the attribute name `class` of both spans for a
-- keyword, so a tag stands inside a tag.
pub highlight_java-comment :
    (t : Text)
    → All IsInert t
    → highlight_java (codes "//" ++ t)
      ≡ codes
          "<span <span class=\"kw\">class</span>=<span <span class=\"kw\">class</span>=\"st\">\"cm\"</span>>//"
        ++ (t ++ codes "</span>")
unfolding highlight_java
highlight_java-comment t h = rw (esc_comment t h) (
    rw (after_comments t h)
      (rw (after_strings t h) (rw (after_keywords t h) (rw (after_types t h) (after_numbers t h)))))
