-- ===== src/Spa/Tests/Comparison.antt =====
-- The comparison of two executions at the documents of the small server.
use trace_graph.Base.{
  codes, decimal, text_eq, length, List, ◌++◌, ◌≡◌, refl, some, inl, inr, ◌∷◌, ◌+◌,
}
use trace_graph.Value.{num, obj, items, field_at, arr, nil, end, field, Fields, other_num, nullish}
use trace_graph.Spa.Toast.{shown, toast_run}
use trace_graph.Spa.Toast.Laws.{
  millis, showing, gone, Fits, stands, show_toast-stands, toast_run-Fits,
}
use trace_graph.Spa.DiffView.Identical.{IsIdentical}
use trace_graph.Spa.Api.{value}
use trace_graph.Spa.Template.{Piece}
use trace_graph.Spa.TraceView.Markup.{IsStep}
use trace_graph.Spa.TraceView.Replay.{is_unreserved, percent, encode_char, encode_uri}
use trace_graph.Spa.DiffView.{
  diff_path, diff_summary, prefix_block, columns_block, step_lines, load_diff,
}
use trace_graph.Spa.DiffView.Rows.{IsDiff, load_diff-numbering}
use trace_graph.Spa.Tests.{
  platform, server, prefix_steps, left_steps, right_steps, diff_fields, validate_fields,
  charge_fields, ship_fields,
}

diff_answered : server (diff_path (codes "a1") (codes "b&2")) ≡ value (obj diff_fields)
unfolding server diff_path codes text_eq encode_uri encode_char is_unreserved percent
diff_answered = refl

pub validate_IsStep : IsStep (obj validate_fields)
unfolding field_at text_eq codes
validate_IsStep = (validate_fields, refl, inr (inr (2, refl)))

pub charge_IsStep : IsStep (obj charge_fields)
unfolding field_at text_eq codes
charge_IsStep = (charge_fields, refl, inl refl)

ship_IsStep : IsStep (obj ship_fields)
unfolding field_at text_eq codes
ship_IsStep = (ship_fields, refl, inl refl)

diff_fields-IsDiff : IsDiff diff_fields prefix_steps left_steps right_steps
unfolding field_at text_eq codes items
diff_fields-IsDiff = record {
  common = refl;
  lefts = refl;
  rights = refl;
  index = refl;
  prefix_steps = (validate_IsStep, tt);
  left_steps = (charge_IsStep, tt);
  right_steps = (ship_IsStep, (charge_IsStep, tt));
}

load_diff-numbering_example :
    (common : List Piece) × (lefts : List Piece) × (rights : List Piece) × (load_diff platform
        server
        (codes "a1")
        (codes "b&2")
      ≡ some (
          diff_summary (obj diff_fields) (num (length (items prefix_steps)))
          ++ (prefix_block (items prefix_steps) common
              ++ columns_block
                  (codes "a1")
                  (codes "b&2")
                  (num (length (items prefix_steps)))
                  (items left_steps)
                  (items right_steps)
                  lefts
                  rights)))
    × (step_lines decimal 0 (items prefix_steps ++ items left_steps) ≡ some (common ++ lefts))
    × (step_lines decimal 0 (items prefix_steps ++ items right_steps) ≡ some (common ++ rights))
load_diff-numbering_example =
    load_diff-numbering platform server (codes "a1") (codes "b&2") diff_fields prefix_steps
      left_steps right_steps diff_answered diff_fields-IsDiff

abbrev identical_fields : Fields
identical_fields = field (codes "commonPrefix") (arr prefix_steps) (
    field (codes "leftRemainder") (arr nil) (
      field (codes "rightRemainder") (arr nil)
        (field (codes "divergenceIndex") (other_num (codes "-1")) end)))

identical_fields-IsIdentical : IsIdentical identical_fields prefix_steps (other_num (codes "-1"))
unfolding field_at text_eq codes items nullish
identical_fields-IsIdentical = record {
  common = refl;
  lefts = refl;
  rights = refl;
  divergence = refl;
  prefix_steps = (validate_IsStep, tt);
}

-- The box with two messages.
show_toast-stands_example :
    (toast_run (showing (codes "a") 4 7) (shown (codes "b") (3 + 2) ∷ millis 3)
      ≡ showing (codes "b") 5 2)
    × (toast_run (showing (codes "a") 4 7) (shown (codes "b") 3 ∷ millis 4) ≡ gone (codes "b") 5)
show_toast-stands_example = show_toast-stands (showing (codes "a") 4 7) (codes "b") 3 2 stands

toast_run-Fits_example : Fits (toast_run (showing (codes "a") 4 7) (shown (codes "b") 3 ∷ millis 2))
toast_run-Fits_example =
    toast_run-Fits (showing (codes "a") 4 7) (shown (codes "b") 3 ∷ millis 2) stands
