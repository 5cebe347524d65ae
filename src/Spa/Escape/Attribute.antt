-- ===== src/Spa/Escape/Attribute.antt =====
-- A text that `esc` gives and the app puts between double quotes, as the value of an attribute.
use trace_graph.Base.{
  ℕ, Text, codes, Lacks, split_head, split_head-append, All-append, append_assoc, [], ◌∷◌, ◌++◌,
  ◌≡◌, ◌≢◌, arith, ◌∙◌, ap,
}
use trace_graph.Spa.Escape.{esc}
use trace_graph.Spa.Escape.Laws.{
  esc_char, esc_chars, esc-eq-esc_chars, esc-append, esc-quote_cons, shown, shown-esc,
}

-- The value of an attribute whose opening quote was just read: all up to the next quote, with its
-- entities resolved.
unfoldable pub attribute_value : Text → Text
attribute_value s = shown (split_head b'"' s)

esc_char-Lacks : (c : ℕ) → c ≢ b'"' → Lacks b'"' (esc_char c)
unfolding esc_char codes
esc_char-Lacks c h = ground arith

esc_chars-Lacks : (s : Text) → Lacks b'"' s → Lacks b'"' (esc_chars s)
unfolding esc_chars
esc_chars-Lacks [] h = tt
esc_chars-Lacks (c ∷ s) (p, h) =
    All-append _ (esc_char c) (esc_chars s) (esc_char-Lacks c p) (esc_chars-Lacks s h)

esc-Lacks : (s : Text) → Lacks b'"' s → Lacks b'"' (esc s)
esc-Lacks s h = rw esc-eq-esc_chars (esc_chars-Lacks s h)

-- A text with no double quote comes back from an attribute as it was.
pub attribute_value-esc :
    (s rest : Text) → Lacks b'"' s → attribute_value (esc s ++ (b'"' ∷ rest)) ≡ s
unfolding attribute_value
attribute_value-esc s rest h =
    rw (split_head-append b'"' (esc s) rest (esc-Lacks s h)) (shown-esc s)

esc-append_quote : (s t : Text) → esc (s ++ (b'"' ∷ t)) ≡ esc s ++ (b'"' ∷ esc t)
esc-append_quote s t = esc-append s (b'"' ∷ t) ∙ ap (λ x. esc s ++ x) (esc-quote_cons t)

-- A text with a double quote leaves the attribute there: the browser takes what stands behind the
-- quote for further attributes of the element.
pub attribute_value-esc_quote :
    (s t rest : Text) → Lacks b'"' s → attribute_value (esc (s ++ (b'"' ∷ t)) ++ (b'"' ∷ rest)) ≡ s
unfolding attribute_value
attribute_value-esc_quote s t rest h = rw (esc-append_quote s t) (
    rw (append_assoc (esc s) (b'"' ∷ esc t) (b'"' ∷ rest))
      (attribute_value-esc s (esc t ++ (b'"' ∷ rest)) h))
