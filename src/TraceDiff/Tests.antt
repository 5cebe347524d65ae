-- ===== src/TraceDiff/Tests.antt =====
-- The comparison of two small executions, and its page.
use trace_graph.Base.{
  ℕ, codes, text_eq, ◌==◌, List, [], ◌∷◌, ◌++◌, none, length, take, map, ◌≡◌, refl, inr, ◌⊎◌, ◌<◌,
  true, false,
}
use trace_graph.Value.{Js, arr, obj, num, end, field, Fields, field_at}
use trace_graph.Spa.Api.{value}
use trace_graph.Spa.TraceView.Markup.{IsStep}
use trace_graph.Spa.DiffView.{load_diff}
use trace_graph.Spa.Platform.{Platform}
use trace_graph.TraceDiff.{equal_at, min_size, scan, common_size, divergence_at, between}
use trace_graph.TraceDiff.Laws.{between-longest}
use trace_graph.TraceDiff.Shown.{to_items, index_json, Encodes, IsShown, between-IsShown}

abbrev plain_platform : Platform
plain_platform = record {
  local_time = λ v. [];
  epoch = λ v. none;
  seconds = λ ms. [];
  parse = λ t. none;
  float_add = λ t i. t;
}

-- A step by a number for its name and states.
abbrev number_json : ℕ → Js
number_json n = obj (field (codes "attempts") (num n) end)

abbrev left_run : List ℕ
left_run = 1 ∷ 2 ∷ 3 ∷ []

abbrev right_run : List ℕ
right_run = 1 ∷ 2 ∷ 5 ∷ 6 ∷ []

between-longest_example :
    ((between ◌==◌ left_run right_run).common_prefix
        ++ (between ◌==◌ left_run right_run).left_remainder
      ≡ left_run)
    × (take (common_size ◌==◌ left_run right_run) right_run
          ++ (between ◌==◌ left_run right_run).right_remainder
        ≡ right_run)
    × (length (between ◌==◌ left_run right_run).common_prefix ≡ common_size ◌==◌ left_run right_run)
    × ((i : ℕ)
        → i < common_size ◌==◌ left_run right_run
        → equal_at ◌==◌ left_run right_run i ≡ true)
    × ((common_size ◌==◌ left_run right_run ≡ min_size ◌==◌ left_run right_run)
        ⊎ (equal_at ◌==◌ left_run right_run (common_size ◌==◌ left_run right_run) ≡ false))
between-longest_example = between-longest ◌==◌ left_run right_run

abbrev number_fields : Fields
number_fields = field (codes "commonPrefix") (arr (to_items (map number_json (1 ∷ 2 ∷ [])))) (
    field (codes "divergenceIndex") (num 2) (
      field (codes "leftRemainder") (arr (to_items (map number_json (3 ∷ []))))
        (field (codes "rightRemainder") (arr (to_items (map number_json (5 ∷ 6 ∷ [])))) end)))

number_fields-Encodes : Encodes number_json number_fields (between ◌==◌ left_run right_run)
unfolding between common_size scan min_size equal_at divergence_at field_at codes text_eq
number_fields-Encodes = record { common = refl; lefts = refl; rights = refl; index = refl }

number_IsStep : (n : ℕ) → IsStep (number_json n)
unfolding field_at text_eq codes
number_IsStep n = (field (codes "attempts") (num n) end, refl, inr (inr (n, refl)))

between-IsShown_example :
    IsShown plain_platform
      (load_diff plain_platform (λ _. value (obj number_fields)) (codes "a") (codes "b"))
      (codes "a")
      (codes "b")
      (obj number_fields)
      (index_json (between ◌==◌ left_run right_run).divergence)
      (map number_json (between ◌==◌ left_run right_run).common_prefix)
      (map number_json (between ◌==◌ left_run right_run).left_remainder)
      (map number_json (between ◌==◌ left_run right_run).right_remainder)
    × (map number_json (between ◌==◌ left_run right_run).common_prefix
          ++ map number_json (between ◌==◌ left_run right_run).left_remainder
        ≡ map number_json left_run)
between-IsShown_example =
    between-IsShown ◌==◌ number_json left_run right_run plain_platform
      (λ _. value (obj number_fields)) (codes "a") (codes "b") number_fields refl
      number_fields-Encodes number_IsStep
