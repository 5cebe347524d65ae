-- ===== src/Spa/TraceView.antt =====
-- `renderTrace` of app.js: the markup of a trace, and the panel of one step.
pub mod Markup
pub mod Replay
pub mod Click
use Prim.Native.String.{String}
use trace_graph.Base.{
  ℕ, suc, Text, codes, decimal, text_eq, if◌then◌else◌, List, [], ◌∷◌, ◌++◌, Bool, true, false,
  Option, none, some, get_elem?, ◌||◌, parse_int,
}
use trace_graph.Value.{Js, str, nullish, get, opt_get, truthy, to_text}
use trace_graph.Spa.Api.{ApiResult, value, failure, is_not_found}
use trace_graph.Spa.Escape.{esc}
use trace_graph.Spa.Platform.{Platform}
use trace_graph.Spa.StateDiff.{pretty_json, render_state_diff}
use trace_graph.Spa.Steps.{◌>>=◌, or_empty, for_each, node_name, attempts, duration}
use trace_graph.Spa.Template.{Piece, lit, escaped, plain, piece, escaped_opt}
use trace_graph.Spa.TraceList.{esc_arg}

-- The path that the view requests: the id goes through `esc`.
unfoldable pub view_path : Text → Text
view_path id = codes "/tracegraph/traces/" ++ esc id

-- The template of one row.
unfoldable pub row_pieces : ℕ → Text → Text → Text → List Piece
row_pieces idx name tries time =
    lit "<div class=\"step-row\" data-idx=\""
    ∷ plain (decimal idx)
    ∷ lit "\">\n      <span class=\"step-index\">"
    ∷ plain (decimal idx)
    ∷ lit "</span>\n      <span class=\"step-name\">"
    ∷ escaped name
    ∷ lit "</span>\n      <span class=\"step-meta\">attempts: "
    ∷ plain tries
    ∷ lit " &nbsp;|&nbsp; "
    ∷ plain time
    ∷ lit "</span>\n      <button class=\"step-btn\" data-replay=\""
    ∷ plain (decimal idx)
    ∷ lit "\">Replay from here</button>\n    </div>"
    ∷ []

unfoldable pub ends_with : Text → Text → Bool
ends_with [] t = text_eq t []
ends_with (c ∷ s) t = text_eq t (c ∷ s) || ends_with s t

-- `dataset`: the interpolation behind the literal that opens the attribute.
unfoldable pub attribute : Text → List Piece → Option Text
unfolding ends_with piece
attribute name [] = none
attribute name (lit s ∷ []) = none
attribute name (lit s ∷ p ∷ ps) =
    let rest = attribute name (p ∷ ps) in
    if ends_with (codes s) (name ++ codes "=\"") then some (piece p) else rest
attribute name (escaped t ∷ ps) = attribute name ps
attribute name (plain t ∷ ps) = attribute name ps

-- Where in a row the user clicks: on the button of class `step-btn`, or elsewhere.
pub data Target : Type 0 where
  step_btn other_part : Target

-- What a click does: nothing, or the panel shows something, where `none` is a TypeError.
pub data Clicked : Type 0 where
  ignored : Clicked
  clicked : Option (List Piece) → Clicked

module _ (pf : Platform) where
  unfoldable pub step_row : ℕ → Js → Option (List Piece)
  step_row idx s = do
    name ← node_name s
    tries ← attempts s
    time ← duration pf s
    some (row_pieces idx name tries time)

  -- The rounds of `steps.forEach((s, idx) => …)` from an index on.
  unfoldable pub step_rows : ℕ → List Js → Option (List Piece)
  step_rows idx [] = some []
  step_rows idx (s ∷ ss) = do
    row ← step_row idx s
    rows ← step_rows (suc idx) ss
    some (row ++ rows)

  unfoldable pub time_text : Js → Text
  time_text v = if truthy v then pf.local_time v else codes "—"

  unfoldable pub forked_from : Js → Js → List Piece
  forked_from id step =
      if truthy id
      then lit "<span><strong>Forked from:</strong> <a href=\"#/traces/"
        ∷ escaped (esc_arg id)
        ∷ lit "\">"
        ∷ escaped (esc_arg id)
        ∷ lit "</a> step "
        ∷ plain (to_text step)
        ∷ lit "</span>"
        ∷ []
      else plain [] ∷ []

  -- `${stepHtml || …}`: the rows are the empty text exactly if there is no step.
  unfoldable pub or_no_steps : List Piece → List Piece
  or_no_steps [] = lit "<p class=\"muted\">No steps recorded.</p>" ∷ []
  or_no_steps (p ∷ ps) = p ∷ ps

  unfoldable pub trace_page : Text → Js → List Piece → List Piece
  trace_page id trace rows =
      lit "\n    <h1>Trace: <code style=\"font-size:0.85rem\">"
      ∷ escaped id
      ∷ lit
          "</code></h1>\n    <div class=\"trace-meta\">\n      <span><strong>Status:</strong> <span class=\"badge badge-"
      ∷ escaped (esc_arg (opt_get (codes "status") trace))
      ∷ lit "\">"
      ∷ escaped (esc_arg (opt_get (codes "status") trace))
      ∷ lit "</span></span>\n      <span><strong>Started:</strong> "
      ∷ escaped (time_text (opt_get (codes "startedAt") trace))
      ∷ lit "</span>\n      <span><strong>Completed:</strong> "
      ∷ escaped (time_text (opt_get (codes "completedAt") trace))
      ∷ lit "</span>\n      "
      ∷ (forked_from (opt_get (codes "forkedFromExecutionId") trace)
            (opt_get (codes "forkedFromStepIndex") trace)
          ++ (lit
                "\n    </div>\n    <div class=\"detail-layout\">\n      <div>\n        <h2>Steps</h2>\n        <div class=\"timeline\">"
              ∷ (or_no_steps rows
                  ++ (lit
                        "</div>\n      </div>\n      <div class=\"side-panel\" id=\"step-detail\">\n        <h3>Step detail</h3>\n        <p class=\"muted\">Click a step to inspect state.</p>\n      </div>\n    </div>"
                      ∷ []))))

  unfoldable pub trace_error : Text → Option ℕ → List Piece
  trace_error m s =
      lit "<h1>Trace</h1><p class=\"error-msg\">"
      ∷ (if is_not_found s then lit "Trace not found." else escaped m)
      ∷ lit "</p>"
      ∷ []

  -- What the view shows in the end. `none` is a TypeError, after which the view stays as it was:
  -- at "Loading…".
  unfoldable pub render_trace : (Text → ApiResult) → Text → Option (List Piece)
  render_trace api id = elim (api (view_path id)) [
    | failure m s ↦ some (trace_error m s)
    | value trace ↦ do
      steps ← get (codes "steps") trace
      ss ← for_each (or_empty steps)
      rows ← step_rows 0 ss
      some (trace_page id trace rows)
  ]

  unfoldable pub error_block : Js → List Piece
  error_block e =
      if truthy e
      then lit "<h2>Error</h2><pre class=\"error-msg\">"
        ∷ escaped_opt (pretty_json pf.parse e)
        ∷ lit "</pre>"
        ∷ []
      else plain [] ∷ []

  unfoldable pub panel : ℕ → Js → Option (List Piece)
  panel idx s = do
    name ← node_name s
    tries ← attempts s
    time ← duration pf s
    before ← get (codes "before") s
    after ← get (codes "after") s
    error ← get (codes "error") s
    some (
        lit "\n        <h3>Step "
        ∷ plain (decimal idx)
        ∷ lit " — "
        ∷ escaped name
        ∷ lit "</h3>\n        <p class=\"muted\" style=\"margin-bottom:0.5rem\">Attempts: "
        ∷ plain tries
        ∷ lit " &nbsp;|&nbsp; "
        ∷ plain time
        ∷ lit "</p>\n        <h2 style=\"margin-top:0.75rem\">State diff</h2>\n        "
        ∷ (render_state_diff before after
            ++ (lit "\n        <h2>Before</h2><pre>"
                ∷ escaped_opt (pretty_json pf.parse before)
                ∷ lit "</pre>\n        <h2>After</h2><pre>"
                ∷ escaped_opt (pretty_json pf.parse after)
                ∷ lit "</pre>\n        "
                ∷ error_block error)))

  -- The panel of `steps[idx]`; `none` is the TypeError of a step that is missing.
  unfoldable pub click_step : List Js → ℕ → Option (List Piece)
  click_step steps idx = do s ← get_elem? steps idx; panel idx s

  -- The listener of a row, by the row that `renderTrace` wrote.
  unfoldable pub click_row : List Js → List Piece → Target → Clicked
  unfolding attribute click_step parse_int
  click_row steps row step_btn = ignored
  click_row steps row other_part =
      clicked
        (do text ← attribute (codes "data-idx") row; idx ← parse_int text; click_step steps idx)

-- `trace.status === 'RUNNING'`: whether the note on the live tail is put behind the timeline.
unfoldable pub shows_live_note : Js → Bool
shows_live_note (str s) = text_eq s (codes "RUNNING")
shows_live_note _ = false
