-- ===== src/Site/Highlight/Keeps/Words.antt =====
-- The passes for comments, strings, keywords and types.
use trace_graph.Site.Highlight.Keeps.{
  Keeps, IsEven, Keeps-refl, Keeps-append, Keeps-cons, marked-Keeps, closed, opened, cm-IsEven,
  st-IsEven,
}
use trace_graph.Base.{
  ℕ, zero, suc, Text, codes, ◌==◌, [], ◌∷◌, ◌++◌, Bool, true, false, append_assoc, append-nil,
  subst, starts_with, ◌&&◌, Bool-cases, inl, inr, Option-cases,
}
use trace_graph.Site.Highlight.{
  mark_comments, string_length, mark_strings, is_word, flush, mark_words,
}

pub comments-Keeps : (b : Bool) (s : Text) → Keeps s (mark_comments b s)
unfolding mark_comments
comments-Keeps false [] = Keeps-refl []
comments-Keeps true [] = rw append-nil at (closed [] [] (Keeps-refl []))
comments-Keeps false (c ∷ s) = elim (Bool-cases (c == b'/' && starts_with s (codes "/"))) [
  | inl e ↦
      rw (e, mark_comments)
        (opened (codes "cm") cm-IsEven _ _ (Keeps-cons c s _ (comments-Keeps true s)))
  | inr e ↦ rw (e, mark_comments) (Keeps-cons c s _ (comments-Keeps false s))
]
comments-Keeps true (c ∷ s) = elim (Bool-cases (c == 10)) [
  | inl e ↦ rw (e, mark_comments) (closed _ _ (Keeps-cons c s _ (comments-Keeps false s)))
  | inr e ↦ rw (e, mark_comments) (Keeps-cons c s _ (comments-Keeps true s))
]

pub strings-Keeps : (n : ℕ) (s : Text) → Keeps s (mark_strings n s)
unfolding mark_strings
strings-Keeps n [] = Keeps-refl []
strings-Keeps zero (c ∷ s) = elim (Bool-cases (c == b'"')) [
  | inr e ↦ rw (e, mark_strings) (Keeps-cons c s _ (strings-Keeps 0 s))
  | inl e ↦ elim (Option-cases (string_length false s)) [
    | inl f ↦ rw (e, f, mark_strings) (Keeps-cons c s _ (strings-Keeps 0 s))
    | inr (n, f) ↦
        rw (e, f, mark_strings)
          (opened (codes "st") st-IsEven _ _ (Keeps-cons c s _ (strings-Keeps n s)))
  ]
]
strings-Keeps (suc zero) (c ∷ s) = Keeps-cons c s _ (closed s _ (strings-Keeps 0 s))
strings-Keeps (suc (suc n)) (c ∷ s) = Keeps-cons c s _ (strings-Keeps (suc n) s)

pub flush-Keeps : (p : Text → Bool) (cls run : Text) → IsEven cls → Keeps run (flush p cls run)
unfolding flush
flush-Keeps p cls run h = elim (Bool-cases (p run)) [
  | inl e ↦ rw e (marked-Keeps cls run h)
  | inr e ↦ rw e (Keeps-refl run)
]

pub words-Keeps :
    (p : Text → Bool) (cls run s : Text) → IsEven cls → Keeps (run ++ s) (mark_words p cls run s)
unfolding mark_words
words-Keeps p cls run [] h = rw append-nil (flush-Keeps p cls run h)
words-Keeps p cls run (c ∷ s) h = elim (Bool-cases (is_word c)) [
  | inl e ↦
      rw (e, mark_words)
        (subst (λ t. Keeps t (mark_words p cls (run ++ (c ∷ [])) s)) (append_assoc run (c ∷ []) s)
          (words-Keeps p cls (run ++ (c ∷ [])) s h))
  | inr e ↦
      rw (e, mark_words)
        (Keeps-append run (flush p cls run) (c ∷ s) (c ∷ mark_words p cls [] s)
          (flush-Keeps p cls run h) (Keeps-cons c s _ (words-Keeps p cls [] s h)))
]
