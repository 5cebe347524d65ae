-- ===== src/Site/Highlight/Keeps/Numbers.antt =====
-- The pass for numbers.
use trace_graph.Site.Highlight.Keeps.{
  Keeps, Keeps-refl, Keeps-append, Keeps-cons, marked-Keeps, nm-IsEven,
}
use trace_graph.Site.Highlight.Keeps.Words.{flush-Keeps}
use trace_graph.Base.{
  ℕ, Text, codes, ◌==◌, [], ◌∷◌, ◌++◌, true, ◌≡◌, arith, append_assoc, append-nil, subst, ap, ◌∙◌,
  ◌&&◌, Bool-cases, inl, inr,
}
use trace_graph.Site.Highlight.{
  is_digit, is_word, marked, flush, is_number, NumberScan, in_run, in_fraction, flush_number,
  flush_scan, mark_numbers,
}

-- What a scan has read and not put out.
abbrev pending : NumberScan → Text
pending (in_run run) = run
pending (in_fraction whole ds) = whole ++ (codes "." ++ ds)

flush_number-Keeps : (whole ds : Text) → Keeps (whole ++ (codes "." ++ ds)) (flush_number whole ds)
unfolding flush_number codes
flush_number-Keeps whole [] =
    Keeps-append whole (marked (codes "nm") whole) (codes ".") (codes ".")
      (marked-Keeps (codes "nm") whole nm-IsEven) (Keeps-refl (codes "."))
flush_number-Keeps whole (d ∷ ds) =
    marked-Keeps (codes "nm") (whole ++ (codes "." ++ (d ∷ ds))) nm-IsEven

flush_scan-Keeps : (st : NumberScan) → Keeps (pending st) (flush_scan st)
unfolding flush_scan
flush_scan-Keeps (in_run run) = flush-Keeps is_number (codes "nm") run nm-IsEven
flush_scan-Keeps (in_fraction whole ds) = flush_number-Keeps whole ds

-- One more character read.
read_run : (run s : Text) (c : ℕ) → (run ++ (c ∷ [])) ++ s ≡ run ++ (c ∷ s)
read_run run s c = append_assoc run (c ∷ []) s

read_fraction :
    (whole ds s : Text) (c : ℕ)
    → (whole ++ (codes "." ++ (ds ++ (c ∷ [])))) ++ s ≡ (whole ++ (codes "." ++ ds)) ++ (c ∷ s)
read_fraction whole ds s c = simp append_assoc

end_fraction :
    (whole ds s : Text) (c : ℕ)
    → whole ++ (codes "." ++ ((ds ++ (c ∷ [])) ++ s)) ≡ (whole ++ (codes "." ++ ds)) ++ (c ∷ s)
end_fraction whole ds s c = simp append_assoc

read_point :
    (run s : Text) (c : ℕ)
    → (c == b'.' && is_number run) ≡ true
    → (run ++ (codes "." ++ [])) ++ s ≡ run ++ (c ∷ s)
unfolding codes
read_point run s c e = append_assoc run (b'.' ∷ []) s ∙ ap (λ d. run ++ (d ∷ s)) (same e)
  where
    same : (c == b'.' && is_number run) ≡ true → b'.' ≡ c
    same e = ground (arith, e)

pub numbers-Keeps : (st : NumberScan) (s : Text) → Keeps (pending st ++ s) (mark_numbers st s)
unfolding mark_numbers
numbers-Keeps st [] = rw append-nil (flush_scan-Keeps st)
numbers-Keeps (in_run run) (c ∷ s) = elim (Bool-cases (is_word c)) [
  | inl e ↦
      rw (e, mark_numbers)
        (subst (λ t. Keeps t (mark_numbers (in_run (run ++ (c ∷ []))) s)) (read_run run s c)
          (numbers-Keeps (in_run (run ++ (c ∷ []))) s))
  | inr e ↦ elim (Bool-cases (c == b'.' && is_number run)) [
    | inl f ↦
        rw (e, f, mark_numbers)
          (subst (λ t. Keeps t (mark_numbers (in_fraction run []) s)) (read_point run s c f)
            (numbers-Keeps (in_fraction run []) s))
    | inr f ↦
        rw (e, f, mark_numbers)
          (Keeps-append run (flush is_number (codes "nm") run) (c ∷ s)
            (c ∷ mark_numbers (in_run []) s) (flush-Keeps is_number (codes "nm") run nm-IsEven)
            (Keeps-cons c s _ (numbers-Keeps (in_run []) s)))
  ]
]
numbers-Keeps (in_fraction whole ds) (c ∷ s) = elim (Bool-cases (is_digit c)) [
  | inl e ↦
      rw (e, mark_numbers)
        (subst (λ t. Keeps t (mark_numbers (in_fraction whole (ds ++ (c ∷ []))) s))
          (read_fraction whole ds s c) (numbers-Keeps (in_fraction whole (ds ++ (c ∷ []))) s))
  | inr e ↦ elim (Bool-cases (is_word c)) [
    | inl f ↦
        rw (e, f, mark_numbers)
          (subst
            (λ t. Keeps t (
              marked (codes "nm") whole ++ (codes "." ++ mark_numbers (in_run (ds ++ (c ∷ []))) s)))
            (end_fraction whole ds s c)
            (Keeps-append whole (marked (codes "nm") whole) _ _
              (marked-Keeps (codes "nm") whole nm-IsEven)
              (Keeps-append (codes ".") (codes ".") _ _ (Keeps-refl (codes "."))
                (numbers-Keeps (in_run (ds ++ (c ∷ []))) s))))
    | inr f ↦
        rw (e, f, mark_numbers)
          (Keeps-append _ (flush_number whole ds) (c ∷ s) (c ∷ mark_numbers (in_run []) s)
            (flush_number-Keeps whole ds) (Keeps-cons c s _ (numbers-Keeps (in_run []) s)))
  ]
]
