-- ===== src/Base/Splits.antt =====
-- `split` by one character.
use mathlib.Core.Path.{◌≡◌, refl, ap}
use mathlib.Core.Logic.{◌≢◌, inl, inr}
use mathlib.Core.List.{[], ◌∷◌, ◌++◌}
use Prim.Native.Nat.{ℕ, ◌<◌}
use native.Mathlib.Omega.{arith}
use trace_graph.Base.Tests.{◌==◌, ==_iff, Bool-cases}
use trace_graph.Base.Lists.{All}
use trace_graph.Base.Texts.{Text, split_head, split_tail, count, decimal, count-decimal}

-- No character of the text is the separator.
abbrev pub Lacks : ℕ → Text → Type 0
Lacks sep s = All (λ c. c ≢ sep) s

module _ (sep : ℕ) where
  pub split_head-Lacks : (s : Text) → Lacks sep s → split_head sep s ≡ s
  unfolding split_head
  split_head-Lacks [] h = refl
  split_head-Lacks (c ∷ s) (p, h) = elim (Bool-cases (c == sep)) [
    | inl e ↦ absurd (p ((==_iff c sep).0 e))
    | inr e ↦ rw (e, split_head) (ap (c ∷◌) (split_head-Lacks s h))
  ]

  pub split_head-append : (s t : Text) → Lacks sep s → split_head sep (s ++ (sep ∷ t)) ≡ s
  unfolding split_head
  split_head-append [] t h = ground arith
  split_head-append (c ∷ s) t (p, h) = elim (Bool-cases (c == sep)) [
    | inl e ↦ absurd (p ((==_iff c sep).0 e))
    | inr e ↦ rw (e, split_head) (ap (c ∷◌) (split_head-append s t h))
  ]

  -- The first part holds no separator.
  pub Lacks-split_head : (s : Text) → Lacks sep (split_head sep s)
  unfolding split_head
  Lacks-split_head [] = tt
  Lacks-split_head (c ∷ s) = elim (Bool-cases (c == sep)) [
    | inl e ↦ rw (e, split_head) tt
    | inr e ↦ rw (e, split_head) (ground (arith, ==_iff c sep), Lacks-split_head s)
  ]

  pub split_head-append_Lacks :
      (s t : Text) → Lacks sep s → split_head sep (s ++ t) ≡ s ++ split_head sep t
  unfolding split_head
  split_head-append_Lacks [] t h = refl
  split_head-append_Lacks (c ∷ s) t (p, h) = elim (Bool-cases (c == sep)) [
    | inl e ↦ absurd (p ((==_iff c sep).0 e))
    | inr e ↦ rw (e, split_head) (ap (c ∷◌) (split_head-append_Lacks s t h))
  ]

  pub split_tail-append_Lacks :
      (s t : Text) → Lacks sep s → split_tail sep (s ++ t) ≡ split_tail sep t
  unfolding split_tail
  split_tail-append_Lacks [] t h = refl
  split_tail-append_Lacks (c ∷ s) t (p, h) = elim (Bool-cases (c == sep)) [
    | inl e ↦ absurd (p ((==_iff c sep).0 e))
    | inr e ↦ rw (e, split_tail) (split_tail-append_Lacks s t h)
  ]

  pub split_tail-Lacks : (s : Text) → Lacks sep s → split_tail sep s ≡ []
  unfolding split_tail
  split_tail-Lacks [] h = refl
  split_tail-Lacks (c ∷ s) (p, h) = elim (Bool-cases (c == sep)) [
    | inl e ↦ absurd (p ((==_iff c sep).0 e))
    | inr e ↦ rw (e, split_tail) (split_tail-Lacks s h)
  ]

  Lacks-count : (s : Text) → count sep s ≡ 0 → Lacks sep s
  unfolding count
  Lacks-count [] h = tt
  Lacks-count (c ∷ s) h = elim (Bool-cases (c == sep)) [
    | inl e ↦ absurd (ground arith)
    | inr e ↦ ((λ p. ground (arith, ==_iff c sep)), Lacks-count s (omega (arith, rw e at h)))
  ]

  pub Lacks-decimal : (n : ℕ) → 57 < sep → Lacks sep (decimal n)
  Lacks-decimal n h = Lacks-count (decimal n) (count-decimal sep n h)
