-- ===== src/TraceDiff/Laws.antt =====
-- The comparison finds the longest common prefix and loses no step.
use trace_graph.Base.{
  ℕ, zero, suc, ◌+◌, ◌≤◌, ◌<◌, ◌==◌, ◌&&◌, List, [], ◌++◌, Bool, true, false, none, some, length,
  take, take-append_drop, length-take, ◌≡◌, refl, ◌⊎◌, inl, inr, Bool-cases, arith, subst, sym,
  ==_iff, drop-all, ◌∙◌, ap,
}
use trace_graph.TraceDiff.{equal_at, min_size, scan, common_size, divergence_at, between}

module _ {A : Type 0} (steps_equal : A → A → Bool) where
  -- Where the loop stops, from an index on.
  pub record IsStop (ls rs : List A) (from limit k : ℕ) : Type 0 where
    pub lower : from ≤ k
    pub upper : k ≤ limit
    pub same : (i : ℕ) → from ≤ i → i < k → equal_at steps_equal ls rs i ≡ true
    pub stop : (k ≡ limit) ⊎ (equal_at steps_equal ls rs k ≡ false)

  IsStop-here :
      (ls rs : List A) (from limit : ℕ)
      → from ≤ limit
      → (from ≡ limit) ⊎ (equal_at steps_equal ls rs from ≡ false)
      → IsStop ls rs from limit from
  IsStop-here ls rs from limit h e = record {
    lower = omega arith;
    upper = h;
    same = λ i a b. absurd (omega arith);
    stop = e;
  }

  IsStop-further :
      (ls rs : List A) (from limit k : ℕ)
      → equal_at steps_equal ls rs from ≡ true
      → IsStop ls rs (suc from) limit k
      → IsStop ls rs from limit k
  IsStop-further ls rs from limit k t r = record {
    lower = omega (arith, r.lower);
    upper = r.upper;
    same = λ i a b. elim (Bool-cases (i == from)) [
      | inl e ↦ subst (λ j. equal_at steps_equal ls rs j ≡ true) (sym ((==_iff i from).0 e)) t
      | inr n ↦ r.same i (ground (arith, a, n)) b
    ];
    stop = r.stop;
  }

  scan-IsStop :
      (left from limit : ℕ) (ls rs : List A)
      → limit ≡ from + left
      → IsStop ls rs from limit (scan steps_equal left from ls rs)
  unfolding scan
  scan-IsStop zero from limit ls rs e =
      IsStop-here ls rs from limit (omega arith) (inl (omega arith))
  scan-IsStop (suc left) from limit ls rs e = elim (Bool-cases (equal_at steps_equal ls rs from)) [
    | inl t ↦
        rw (t, scan)
          (IsStop-further ls rs from limit _ t
            (scan-IsStop left (suc from) limit ls rs (omega arith)))
    | inr f ↦ rw (f, scan) (IsStop-here ls rs from limit (omega arith) (inr f))
  ]

  min_size-bounds :
      (ls rs : List A)
      → (min_size steps_equal ls rs ≤ length ls) × (min_size steps_equal ls rs ≤ length rs)
  unfolding min_size
  min_size-bounds ls rs = ground arith

  pub common_size-IsStop :
      (ls rs : List A) → IsStop ls rs 0 (min_size steps_equal ls rs) (common_size steps_equal ls rs)
  unfolding common_size
  common_size-IsStop ls rs =
      scan-IsStop (min_size steps_equal ls rs) 0 (min_size steps_equal ls rs) ls rs (omega arith)

  pub common_size-bounds :
      (ls rs : List A)
      → (common_size steps_equal ls rs ≤ length ls) × (common_size steps_equal ls rs ≤ length rs)
  common_size-bounds ls rs =
      let r = common_size-IsStop ls rs in
      let (p, q) = min_size-bounds ls rs in (omega (arith, r.upper), omega (arith, r.upper))

  -- The common prefix with the left remainder is the left execution, the right remainder is what
  -- the right one has behind as many steps, all steps of the prefix are equal in both, and the
  -- prefix is the longest such: it ends where an execution ends or where two steps differ.
  pub between-longest :
      (ls rs : List A)
      → ((between steps_equal ls rs).common_prefix ++ (between steps_equal ls rs).left_remainder
          ≡ ls)
        × (take (common_size steps_equal ls rs) rs ++ (between steps_equal ls rs).right_remainder
            ≡ rs)
        × (length (between steps_equal ls rs).common_prefix ≡ common_size steps_equal ls rs)
        × ((i : ℕ) → i < common_size steps_equal ls rs → equal_at steps_equal ls rs i ≡ true)
        × ((common_size steps_equal ls rs ≡ min_size steps_equal ls rs)
            ⊎ (equal_at steps_equal ls rs (common_size steps_equal ls rs) ≡ false))
  unfolding between
  between-longest ls rs =
      let r = common_size-IsStop ls rs in
      (
        take-append_drop (common_size steps_equal ls rs) ls,
        take-append_drop (common_size steps_equal ls rs) rs,
        length-take (common_size steps_equal ls rs) ls (common_size-bounds ls rs).0,
        (λ i l. r.same i (omega arith) l),
        r.stop,
      )

  divergence_at-cases :
      (c : ℕ) (ls rs : List A)
      → ((divergence_at steps_equal c ls rs ≡ none) × (c ≡ length ls) × (c ≡ length rs))
        ⊎ (divergence_at steps_equal c ls rs ≡ some c)
  unfolding divergence_at
  divergence_at-cases c ls rs = elim (Bool-cases (c == length ls && c == length rs)) [
    | inl t ↦ inl (rw t refl, ground (arith, t), ground (arith, t))
    | inr f ↦ inr (rw f refl)
  ]

  -- The divergence index that is sent is the length of the prefix, or -1, and then both remainders
  -- are empty.
  pub divergence-cases :
      (ls rs : List A)
      → (((between steps_equal ls rs).divergence ≡ none)
          × ((between steps_equal ls rs).left_remainder ≡ [])
          × ((between steps_equal ls rs).right_remainder ≡ []))
        ⊎ ((between steps_equal ls rs).divergence
            ≡ some (length (between steps_equal ls rs).common_prefix))
  unfolding between
  divergence-cases ls rs = elim (divergence_at-cases (common_size steps_equal ls rs) ls rs) [
    | inl (e, l, r) ↦ inl (e, drop-all _ ls l, drop-all _ rs r)
    | inr e ↦ inr (
        e
        ∙ ap some
            (sym (length-take (common_size steps_equal ls rs) ls (common_size-bounds ls rs).0)))
  ]
