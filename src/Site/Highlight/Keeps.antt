-- ===== src/Site/Highlight/Keeps.antt =====
-- What every pass of the highlighter keeps: the brackets stay even, and no character is lost.
pub mod Words
pub mod Numbers
pub mod Passes
use trace_graph.Base.{
  ℕ, zero, suc, ◌+◌, ◌≤◌, Text, codes, count, count-append, ◌==◌, List, [], ◌∷◌, ◌++◌, Bool, true,
  false, ◌≡◌, ◌≢◌, refl, arith, append_assoc, append-nil, subst, ap, ◌∙◌, sym, starts_with, ◌&&◌,
  some, none, Option, Bool-cases, inl, inr, Option-cases,
}
use trace_graph.Spa.Escape.{esc}
use trace_graph.Spa.Escape.Laws.{esc_char, esc_chars, esc-eq-esc_chars, count-esc}
use trace_graph.Site.Highlight.{
  span_open, span_close, mark_comments, string_length, mark_strings, is_digit, is_word, is_keyword,
  is_type_name, marked, flush, mark_words, is_number, NumberScan, in_run, in_fraction, flush_number,
  flush_scan, mark_numbers, highlight_java,
}

-- A text made from another one: as many `<` were added as `>`, and every character occurs at least
-- as often.
pub record Keeps (s t : Text) : Type 0 where
  pub even : count b'<' t + count b'>' s ≡ count b'>' t + count b'<' s
  pub kept : (c : ℕ) → count c s ≤ count c t

pub Keeps-refl : (s : Text) → Keeps s s
Keeps-refl s = record { even = omega arith; kept = λ c. omega arith }

pub Keeps-trans : (s t u : Text) → Keeps s t → Keeps t u → Keeps s u
Keeps-trans s t u h g = record {
  even = omega (arith, h.even, g.even);
  kept = λ c. omega (arith, h.kept c, g.kept c);
}

pub Keeps-append : (s t u v : Text) → Keeps s t → Keeps u v → Keeps (s ++ u) (t ++ v)
Keeps-append s t u v h g = record {
  even = omega (arith, count-append, h.even, g.even);
  kept = λ c. omega (arith, count-append, h.kept c, g.kept c);
}

pub Keeps-cons : (c : ℕ) (s t : Text) → Keeps s t → Keeps (c ∷ s) (c ∷ t)
Keeps-cons c s t h = Keeps-append (c ∷ []) (c ∷ []) s t (Keeps-refl (c ∷ [])) h

-- A tag in front of the rest.
pub Keeps-tag : (tag s t : Text) → count b'<' tag ≡ count b'>' tag → Keeps s t → Keeps s (tag ++ t)
Keeps-tag tag s t e h = record {
  even = omega (arith, count-append, h.even, e);
  kept = λ c. omega (arith, count-append, h.kept c);
}

-- A text of a tag, or of part of one.
abbrev pub IsEven : Text → Type 0
IsEven s = count b'<' s ≡ count b'>' s

pub span_close-IsEven : IsEven span_close
unfolding span_close count codes
span_close-IsEven = refl

pub span_open-IsEven : (cls : Text) → IsEven cls → IsEven (span_open cls)
unfolding span_open count codes
span_open-IsEven cls h =
    omega (arith, count-append b'<' cls (codes "\">"), count-append b'>' cls (codes "\">"), h)

pub marked-Keeps : (cls w : Text) → IsEven cls → Keeps w (marked cls w)
unfolding marked
marked-Keeps cls w h =
    Keeps-tag (span_open cls) w (w ++ span_close) (span_open-IsEven cls h) (record {
      even = omega (arith, count-append, span_close-IsEven);
      kept = λ c. omega (arith, count-append);
    })

pub closed : (s t : Text) → Keeps s t → Keeps s (span_close ++ t)
closed s t h = Keeps-tag span_close s t span_close-IsEven h

pub opened : (cls : Text) → IsEven cls → (s t : Text) → Keeps s t → Keeps s (span_open cls ++ t)
opened cls e s t h = Keeps-tag (span_open cls) s t (span_open-IsEven cls e) h

pub cm-IsEven : IsEven (codes "cm")
unfolding count codes
cm-IsEven = refl

pub st-IsEven : IsEven (codes "st")
unfolding count codes
st-IsEven = refl

pub kw-IsEven : IsEven (codes "kw")
unfolding count codes
kw-IsEven = refl

pub ty-IsEven : IsEven (codes "ty")
unfolding count codes
ty-IsEven = refl

pub nm-IsEven : IsEven (codes "nm")
unfolding count codes
nm-IsEven = refl
