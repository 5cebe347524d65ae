-- ===== src/Spa/TraceView/Click.antt =====
-- The panel of a step in the trace view: a click on a row that is shown.
use trace_graph.Base.{ℕ, List, [], ◌∷◌, ◌++◌, parse_int-decimal, some, length, get_elem?, ◌≡◌, refl}
use trace_graph.Value.{Js, undefined, null, bool, num, other_num, str, arr, obj, get}
use trace_graph.Spa.Platform.{Platform}
use trace_graph.Spa.Steps.{node_name, attempts, duration}
use trace_graph.Spa.Template.{Piece}
use trace_graph.Spa.TraceView.{
  step_row, step_rows, panel, click_step, click_row, clicked, ignored, other_part, step_btn,
}
use trace_graph.Spa.TraceView.Markup.{step_rows-position}

-- A value with a row has a panel: only null and undefined have neither.
panel-step_row :
    (pf : Platform) (idx k : ℕ) (s : Js) (row : List Piece)
    → step_row pf idx s ≡ some row
    → (p : List Piece) × (panel pf k s ≡ some p)
unfolding step_row panel node_name attempts duration get
panel-step_row pf idx k undefined row h = cc
panel-step_row pf idx k null row h = cc
panel-step_row pf idx k (bool b) row h = (_, refl)
panel-step_row pf idx k (num n) row h = (_, refl)
panel-step_row pf idx k (other_num t) row h = (_, refl)
panel-step_row pf idx k (str t) row h = (_, refl)
panel-step_row pf idx k (arr vs) row h = (_, refl)
panel-step_row pf idx k (obj fs) row h = (_, refl)

get_elem?-append :
    (xs : List Js) (s : Js) (ys : List Js) → get_elem? (xs ++ (s ∷ ys)) (length xs) ≡ some s
get_elem?-append [] s ys = refl
get_elem?-append (x ∷ xs) s ys = get_elem?-append xs s ys

-- If the rows of a trace are shown, then for each position there is a row, that of the step in that
-- position, and a click on it shows the panel of that step, whatever the states, times and errors of
-- the step are: no click fails. A click on the button of the row leaves the panel as it is.
pub click_row-shown :
    (pf : Platform) (xs : List Js) (s : Js) (ys : List Js) (rows : List Piece)
    → step_rows pf 0 (xs ++ (s ∷ ys)) ≡ some rows
    → (before : List Piece) × (row : List Piece) × (after : List Piece) × (p : List Piece) × (rows
        ≡ before ++ (row ++ after))
      × (panel pf (length xs) s ≡ some p)
      × (click_row pf (xs ++ (s ∷ ys)) row other_part ≡ clicked (some p))
      × (click_row pf (xs ++ (s ∷ ys)) row step_btn ≡ ignored)
unfolding click_row click_step
click_row-shown pf xs s ys rows h =
    let (before, row, after, parts, e, idx, replay) = step_rows-position pf xs s ys rows h in
    let (p, q) = panel-step_row pf (length xs) (length xs) s row e in
    (
      before,
      row,
      after,
      p,
      parts,
      q,
      rw (idx, parse_int-decimal (length xs), get_elem?-append xs s ys, q) refl,
      refl,
    )
