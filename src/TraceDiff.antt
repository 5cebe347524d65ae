-- ===== src/TraceDiff.antt =====
-- TraceDiff.java of tracegraph-observability, the comparison of two recorded executions that the
-- server sends to the diff view.
pub mod Laws
pub mod Shown
mod Tests
use trace_graph.Base.{
  ℕ, zero, suc, leb, ◌==◌, ◌&&◌, if◌then◌else◌, List, Bool, true, false, Option, none, some, length,
  get_elem?, take, drop,
}

-- `none` is the divergence index -1.
pub record Diff (A : Type 0) : Type 0 where
  pub common_prefix : List A
  pub divergence : Option ℕ
  pub left_remainder : List A
  pub right_remainder : List A

-- `stepsEqual` compares the names and the states of two steps; states are compared by their own
-- `equals`, so the test is a parameter.
module _ {A : Type 0} (steps_equal : A → A → Bool) where
  equal_steps : Option A → Option A → Bool
  equal_steps none q = false
  equal_steps (some a) none = false
  equal_steps (some a) (some b) = steps_equal a b

  -- `stepsEqual(ls.get(i), rs.get(i))` for an index in range.
  unfoldable pub equal_at : List A → List A → ℕ → Bool
  unfolding equal_steps
  equal_at ls rs i = equal_steps (get_elem? ls i) (get_elem? rs i)

  -- `Math.min(ls.size(), rs.size())`
  unfoldable pub min_size : List A → List A → ℕ
  min_size ls rs = if leb (length ls) (length rs) then length ls else length rs

  -- The loop; the first argument is what `common` lacks to the smaller size.
  unfoldable pub scan : ℕ → ℕ → List A → List A → ℕ
  scan zero common ls rs = common
  scan (suc left) common ls rs = elim (equal_at ls rs common) [
    | true ↦ scan left (suc common) ls rs
    | false ↦ common
  ]

  unfoldable pub common_size : List A → List A → ℕ
  unfolding scan min_size
  common_size ls rs = scan (min_size ls rs) 0 ls rs

  unfoldable pub divergence_at : ℕ → List A → List A → Option ℕ
  divergence_at common ls rs =
      if common == length ls && common == length rs then none else some common

  unfoldable pub between : List A → List A → Diff A
  unfolding common_size divergence_at
  between ls rs = record {
    common_prefix = take (common_size ls rs) ls;
    divergence = divergence_at (common_size ls rs) ls rs;
    left_remainder = drop (common_size ls rs) ls;
    right_remainder = drop (common_size ls rs) rs;
  }
