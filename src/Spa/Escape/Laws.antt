-- ===== src/Spa/Escape/Laws.antt =====
-- What `esc` guarantees of a text that is put between tags, and what it leaves alone.
use trace_graph.Base.{
  Text, ℕ, zero, suc, codes, starts_with, ◌+◌, count, count-append, ◌==◌, if◌then◌else◌, [], ◌∷◌,
  ◌++◌, ◌≡◌, refl, sym, ap, ap₂, ◌∙◌, arith, append_assoc,
}
use trace_graph.Spa.Escape.{replace_all, esc}

-- One character at a time: the specification of the three passes.
unfoldable pub esc_char : ℕ → Text
esc_char c =
    if c == b'&'
    then codes "&amp;"
    else if c == b'<'
    then codes "&lt;"
    else if c == b'>'
    then codes "&gt;"
    else c ∷ []

unfoldable pub esc_chars : Text → Text
esc_chars [] = []
esc_chars (c ∷ s) = esc_char c ++ esc_chars s

replace_all-append :
    (c : ℕ) (by s t : Text) → replace_all c by (s ++ t) ≡ replace_all c by s ++ replace_all c by t
unfolding replace_all
replace_all-append c by [] t = refl
replace_all-append c by (x ∷ s) t = rw (replace_all-append c by s t) (rw append_assoc)

-- The passes on one character.
esc-singleton : (c : ℕ) → esc (c ∷ []) ≡ esc_char c
unfolding esc esc_char replace_all codes
esc-singleton c = ground arith

pub esc-append : (s t : Text) → esc (s ++ t) ≡ esc s ++ esc t
unfolding esc
esc-append s t = simp replace_all-append

pub esc-quote_cons : (t : Text) → esc (b'"' ∷ t) ≡ b'"' ∷ esc t
unfolding esc_char
esc-quote_cons t = esc-append (b'"' ∷ []) t ∙ ap (λ x. x ++ esc t) (esc-singleton b'"')

-- Three global replacements are one pass over the characters.
pub esc-eq-esc_chars : (s : Text) → esc s ≡ esc_chars s
unfolding esc_chars
esc-eq-esc_chars [] = unfold esc replace_all in refl
esc-eq-esc_chars (c ∷ s) =
    esc-append (c ∷ []) s ∙ ap₂ (λ x y. x ++ y) (esc-singleton c) (esc-eq-esc_chars s)

count-esc_char_lt : (c : ℕ) → count b'<' (esc_char c) ≡ 0
unfolding count esc_char codes
count-esc_char_lt c = ground arith

count-esc_char_gt : (c : ℕ) → count b'>' (esc_char c) ≡ 0
unfolding count esc_char codes
count-esc_char_gt c = ground arith

count-esc_chars : (s : Text) → (count b'<' (esc_chars s) ≡ 0) × (count b'>' (esc_chars s) ≡ 0)
unfolding esc_chars
count-esc_chars [] = unfold count in (refl, refl)
count-esc_chars (c ∷ s) =
    let (lt, gt) = count-esc_chars s in
    (
      rw count-append (omega (arith, count-esc_char_lt c, lt)),
      rw count-append (omega (arith, count-esc_char_gt c, gt)),
    )

-- An escaped text opens and closes no tag: it holds neither of the two angle brackets.
pub count-esc : (s : Text) → (count b'<' (esc s) ≡ 0) × (count b'>' (esc s) ≡ 0)
count-esc s = rw esc-eq-esc_chars (count-esc_chars s)

-- What a browser shows for character data with the three entities: `skip` characters of an entity
-- that was read are still to be passed over.
unfoldable pub shown_from : ℕ → Text → Text
shown_from skip [] = []
shown_from (suc skip) (c ∷ s) = shown_from skip s
shown_from zero (c ∷ s) =
    let amp = b'&' ∷ shown_from 4 s in
    let lt = b'<' ∷ shown_from 3 s in
    let gt = b'>' ∷ shown_from 3 s in
    let plain = c ∷ shown_from 0 s in
    if c == b'&'
    then if starts_with s (codes "amp;")
      then amp
      else if starts_with s (codes "lt;")
      then lt
      else if starts_with s (codes "gt;")
      then gt
      else plain
    else plain

unfoldable pub shown : Text → Text
unfolding shown_from
shown s = shown_from 0 s

shown_from-esc_char : (c : ℕ) (t : Text) → shown_from 0 (esc_char c ++ t) ≡ c ∷ shown_from 0 t
unfolding shown_from esc_char codes starts_with
shown_from-esc_char c t = ground arith

shown-esc_chars : (s : Text) → shown_from 0 (esc_chars s) ≡ s
unfolding esc_chars
shown-esc_chars [] = unfold shown_from in refl
shown-esc_chars (c ∷ s) = shown_from-esc_char c (esc_chars s) ∙ ap (c ∷◌) (shown-esc_chars s)

-- The browser shows an escaped text as it was: nothing is lost, and no entity of the text itself
-- (such as a literal "&lt;") is taken for markup.
pub shown-esc : (s : Text) → shown (esc s) ≡ s
unfolding shown
shown-esc s = rw esc-eq-esc_chars (shown-esc_chars s)

count-esc_char_quote : (c : ℕ) → count b'"' (esc_char c) ≡ count b'"' (c ∷ [])
unfolding count esc_char codes
count-esc_char_quote c = ground arith

count-esc_chars_quote : (s : Text) → count b'"' (esc_chars s) ≡ count b'"' s
unfolding esc_chars
count-esc_chars_quote [] = refl
count-esc_chars_quote (c ∷ s) = rw count-append (
    ap₂ (λ m n. m + n) (count-esc_char_quote c) (count-esc_chars_quote s)
    ∙ sym (count-append b'"' (c ∷ []) s))

-- `esc` leaves every double quote in place, so it does not confine a text to an attribute value.
pub count-esc_quote : (s : Text) → count b'"' (esc s) ≡ count b'"' s
count-esc_quote s = rw esc-eq-esc_chars (count-esc_chars_quote s)
