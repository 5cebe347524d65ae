-- ===== src/Spa/DiffView/Form.antt =====
-- The form of the diff view: what it submits, and where the hash that it writes leads.
use trace_graph.Base.{
  ℕ, Text, [], ◌∷◌, ◌≡◌, ◌≢◌, refl, ◌⊎◌, inl, inr, ◌↔◌, true, arith, Bool-cases, ap,
}
use trace_graph.Spa.Router.{trace_list, route, diff_hash}
use trace_graph.Spa.Router.Laws.{route-diff_hash}
use trace_graph.Spa.DiffView.{
  is_space, trim_start, trim_end, trim, ignored, compare, submit_ids, submit,
}
use trace_graph.Spa.TraceView.Replay.{encode_uri}

submit_ids-parts :
    (a b hash a' b' : Text)
    → submit_ids a b ≡ compare hash a' b'
    → (a ≡ a') × (b ≡ b') × (a ≢ []) × (b ≢ []) × (hash ≡ diff_hash (encode_uri a) (encode_uri b))
unfolding submit_ids
submit_ids-parts [] b hash a' b' h = cc
submit_ids-parts (x ∷ a) [] hash a' b' h = cc
submit_ids-parts (x ∷ a) (y ∷ b) hash a' b' h = (cc, cc, (λ e. cc), (λ e. cc), cc)

-- A submitted comparison is of the two trimmed ids, neither of them empty, and its hash is read by
-- the router as the trace list: the view that the comparison was loaded into is replaced.
pub submit-compare :
    (x y hash a b : Text)
    → submit x y ≡ compare hash a b
    → (trim x ≡ a) × (trim y ≡ b) × (a ≢ []) × (b ≢ []) × (route hash ≡ trace_list)
unfolding submit
submit-compare x y hash a b h =
    let (p, q, ne_a, ne_b, e) = submit_ids-parts (trim x) (trim y) hash a b h in
    (p, q, rw p at ne_a, rw q at ne_b, rw e (route-diff_hash _ _))

submit_ids-ignored : (a b : Text) → (submit_ids a b ≡ ignored) ↔ ((a ≡ []) ⊎ (b ≡ []))
unfolding submit_ids
submit_ids-ignored [] b = (λ _. inl refl, λ _. refl)
submit_ids-ignored (x ∷ a) [] = (λ _. inr refl, λ _. refl)
submit_ids-ignored (x ∷ a) (y ∷ b) = ground arith

-- All characters are white space.
abbrev IsBlank : Text → Type 0
IsBlank [] = Unit
IsBlank (c ∷ s) = (is_space c ≡ true) × IsBlank s

trim_start-IsBlank : (s : Text) → IsBlank s → trim_start s ≡ []
unfolding trim_start
trim_start-IsBlank [] h = refl
trim_start-IsBlank (c ∷ s) (p, h) = rw (p, trim_start) (trim_start-IsBlank s h)

IsBlank-trim_start : (s : Text) → IsBlank (trim_start s) → IsBlank s
unfolding trim_start
IsBlank-trim_start [] h = tt
IsBlank-trim_start (c ∷ s) h = elim (Bool-cases (is_space c)) [
  | inl p ↦ (p, IsBlank-trim_start s (rw (p, trim_start) at h))
  | inr p ↦ rw (p, trim_start) at h
]

List-cases : (s : Text) → (s ≡ []) ⊎ ((c : ℕ) × (t : Text) × (s ≡ c ∷ t))
List-cases [] = inl refl
List-cases (c ∷ t) = inr (c, t, refl)

IsBlank-trim_end : (s : Text) → trim_end s ≡ [] → IsBlank s
unfolding trim_end
IsBlank-trim_end [] h = tt
IsBlank-trim_end (c ∷ s) h = elim (List-cases (trim_end s)) [
  | inl e ↦ (ground arith, IsBlank-trim_end s e)
  | inr (d, t, e) ↦ absurd (ground arith)
]

trim-eq-nil_iff : (s : Text) → (trim s ≡ []) ↔ IsBlank s
unfolding trim
trim-eq-nil_iff s = (
  (λ h. IsBlank-trim_start s (IsBlank-trim_end (trim_start s) h)),
  (λ h. unfold trim_end in ap trim_end (trim_start-IsBlank s h)),
)

-- The form submits nothing exactly if one of its fields is empty or white space.
submit-ignored_iff : (x y : Text) → (submit x y ≡ ignored) ↔ (IsBlank x ⊎ IsBlank y)
unfolding submit
submit-ignored_iff x y =
    let (to, from) = submit_ids-ignored (trim x) (trim y) in
    (
      (λ h. elim (to h) [
        | inl e ↦ inl ((trim-eq-nil_iff x).0 e)
        | inr e ↦ inr ((trim-eq-nil_iff y).0 e)
      ]),
      (λ h. from (elim h [
        | inl e ↦ inl ((trim-eq-nil_iff x).1 e)
        | inr e ↦ inr ((trim-eq-nil_iff y).1 e)
      ])),
    )
