-- ===== src/Spa/DiffView.antt =====
-- `renderDiff` and `loadDiff` of app.js: the form, and the comparison of two executions.
pub mod Rows
pub mod Form
pub mod Identical
use Prim.Native.String.{String}
use trace_graph.Base.{
  ℕ, suc, Text, codes, decimal, text_eq, length, ltb, if◌then◌else◌, List, [], ◌∷◌, ◌++◌, Bool,
  true, false, Option, none, some, ◌+◌, ◌||◌, not, any, leb, ◌==◌, ◌&&◌,
}
use trace_graph.Value.{
  Js, undefined, null, bool, num, other_num, str, arr, obj, items, nullish, get, opt_get, field_at,
  truthy, to_text,
}
use trace_graph.Spa.Api.{ApiResult, value, failure, is_not_found}
use trace_graph.Spa.Platform.{Platform}
use trace_graph.Spa.Router.{diff_hash}
use trace_graph.Spa.Steps.{◌>>=◌, or_empty, node_name, attempts}
use trace_graph.Spa.Template.{Piece, lit, escaped, plain}
use trace_graph.Spa.TraceView.Replay.{encode_uri}

unfoldable pub diff_path : Text → Text → Text
diff_path a b = codes "/tracegraph/traces/" ++ (encode_uri a ++ (codes "/diff/" ++ encode_uri b))

-- `v > 0` of a length that an object has: another number or a text there is taken to be above zero.
unfoldable pub above_zero : Js → Bool
above_zero undefined = false
above_zero null = false
above_zero (bool b) = b
above_zero (num n) = ltb 0 n
above_zero _ = true

-- `v.length > 0`
unfoldable pub has_length : Js → Bool
unfolding above_zero
has_length (arr vs) = ltb 0 (length (items vs))
has_length (str s) = ltb 0 (length s)
has_length (obj fs) = above_zero (field_at (codes "length") fs)
has_length _ = false

-- `v.length`
unfoldable pub length_of : Js → Js
length_of (arr vs) = num (length (items vs))
length_of (str s) = num (length s)
length_of (obj fs) = field_at (codes "length") fs
length_of _ = undefined

-- The steps of a list that is shown if it has a length above zero; `none` is the TypeError of the
-- `forEach` of what is no array.
unfoldable pub remainder : Js → Option (List Js)
unfolding has_length
remainder (arr vs) = some (items vs)
remainder v = if has_length v then none else some []

unfoldable pub is_array : Js → Bool
is_array (arr vs) = true
is_array _ = false

-- Both remainders are shown if one has a length above zero: the TypeError of the `forEach` of the
-- other, if that is no array.
unfoldable pub are_shown : Js → Js → Option Bool
unfolding has_length is_array
are_shown left right =
    if is_array left && is_array right
    then some true
    else if has_length left || has_length right
    then none
    else some false

-- `divIdx + i`, as text.
unfoldable pub plus_index : Platform → Js → ℕ → Text
plus_index pf (num n) i = decimal (n + i)
plus_index pf (other_num t) i = pf.float_add t i
plus_index pf (bool true) i = decimal (1 + i)
plus_index pf (bool false) i = decimal i
plus_index pf undefined i = codes "NaN"
plus_index pf null i = decimal i
plus_index pf v i = to_text v ++ decimal i

-- The template of `stepLine`.
unfoldable pub line_pieces : Text → Text → Text → List Piece
line_pieces i name tries =
    lit "<div class=\"step-row\">\n      <span class=\"step-index\">"
    ∷ plain i
    ∷ lit "</span>\n      <span class=\"step-name\">"
    ∷ escaped name
    ∷ lit "</span>\n      <span class=\"step-meta\">attempts: "
    ∷ plain tries
    ∷ lit "</span>\n    </div>"
    ∷ []

unfoldable pub step_line : Js → Text → Option (List Piece)
step_line s i = do name ← node_name s; tries ← attempts s; some (line_pieces i name tries)

-- The rounds of a `forEach` that adds lines, from an index on.
unfoldable pub step_lines : (ℕ → Text) → ℕ → List Js → Option (List Piece)
step_lines label i [] = some []
step_lines label i (s ∷ ss) = do
  line ← step_line s (label i)
  lines ← step_lines label (suc i) ss
  some (line ++ lines)

unfoldable pub yes_no : Js → Piece
yes_no v = if truthy v then lit "yes" else lit "no"

unfoldable pub diff_summary : Js → Js → List Piece
diff_summary diff div_idx =
    lit
      "\n    <div style=\"display:flex;gap:2rem;margin-bottom:0.75rem;flex-wrap:wrap\">\n      <span>Identical: <strong>"
    ∷ yes_no (opt_get (codes "identical") diff)
    ∷ lit "</strong></span>\n      <span>Same status: <strong>"
    ∷ yes_no (opt_get (codes "sameStatus") diff)
    ∷ lit "</strong></span>\n      <span>Same final state: <strong>"
    ∷ yes_no (opt_get (codes "sameFinalState") diff)
    ∷ lit "</strong></span>\n      <span>Divergence at step: <strong>"
    ∷ plain (to_text div_idx)
    ∷ lit "</strong></span>\n    </div>"
    ∷ []

unfoldable pub prefix_block : List Js → List Piece → List Piece
prefix_block [] lines = []
prefix_block (s ∷ ss) lines =
    lit "<h2>Common prefix</h2><div class=\"timeline\">" ∷ (lines ++ (lit "</div>" ∷ []))

unfoldable pub columns : Text → Text → Js → List Piece → List Piece → List Piece
columns a b div_idx left right =
    lit "<h2>Divergence (step "
    ∷ plain (to_text div_idx)
    ∷ lit
        "+)</h2>\n      <div class=\"diff-columns\">\n        <div class=\"diff-col\">\n          <h3>A — "
    ∷ escaped a
    ∷ lit "</h3>\n          <div class=\"timeline diff-remove\">"
    ∷ (left
        ++ (lit "  </div></div>\n        <div class=\"diff-col\">\n          <h3>B — "
            ∷ escaped b
            ∷ lit "</h3>\n          <div class=\"timeline diff-add\">"
            ∷ (right ++ (lit "  </div></div></div>" ∷ []))))

unfoldable pub no_divergence : List Piece
no_divergence =
    lit "<p class=\"muted\" style=\"margin-top:1rem\">No divergence — traces share all steps.</p>"
    ∷ []

-- `leftSteps.length > 0 || rightSteps.length > 0`
unfoldable pub columns_block :
    Text → Text → Js → List Js → List Js → List Piece → List Piece → List Piece
columns_block a b div_idx left right left_lines right_lines =
    if ltb 0 (length left) || ltb 0 (length right)
    then columns a b div_idx left_lines right_lines
    else no_divergence

unfoldable pub diff_error : Text → Option ℕ → List Piece
diff_error m s =
    lit "<p class=\"error-msg\">"
    ∷ (if is_not_found s then lit "One or both traces not found." else escaped m)
    ∷ lit "</p>"
    ∷ []

module _ (pf : Platform) where
  unfoldable pub diff_page : Text → Text → Js → Option (List Piece)
  unfolding diff_summary prefix_block columns_block length_of are_shown
  diff_page a b diff = do
    prefix_value ← get (codes "commonPrefix") diff
    prefix_steps ← remainder (or_empty prefix_value)
    left_steps ← remainder (or_empty (opt_get (codes "leftRemainder") diff))
    right_steps ← remainder (or_empty (opt_get (codes "rightRemainder") diff))
    columns_shown ←
        are_shown (or_empty (opt_get (codes "leftRemainder") diff))
          (or_empty (opt_get (codes "rightRemainder") diff))
    let div_idx =
        nullish (opt_get (codes "divergenceIndex") diff) (length_of (or_empty prefix_value))
    prefix_lines ← step_lines decimal 0 prefix_steps
    left_lines ← step_lines (plus_index pf div_idx) 0 left_steps
    right_lines ← step_lines (plus_index pf div_idx) 0 right_steps
    some (
        diff_summary diff div_idx
        ++ (prefix_block prefix_steps prefix_lines
            ++ columns_block a b div_idx left_steps right_steps left_lines right_lines))

  -- What `#diff-result` shows in the end; `none` is a TypeError, which leaves "Computing diff…".
  unfoldable pub load_diff : (Text → ApiResult) → Text → Text → Option (List Piece)
  unfolding diff_error
  load_diff api a b = elim (api (diff_path a b)) [
    | failure m s ↦ some (diff_error m s)
    | value diff ↦ diff_page a b diff
  ]

-- White space at the ends, as `trim` drops it.
unfoldable pub is_space : ℕ → Bool
is_space c =
    (leb 9 c && leb c 13)
    || (c == 0x20
        || (c == 0xa0
            || (c == 0x1680
                || ((leb 0x2000 c && leb c 0x200a)
                    || (c == 0x2028
                        || (c == 0x2029
                            || (c == 0x202f || (c == 0x205f || (c == 0x3000 || c == 0xfeff)))))))))

unfoldable pub trim_start : Text → Text
trim_start [] = []
trim_start (c ∷ s) = if is_space c then trim_start s else c ∷ s

-- A text with no trailing white space.
unfoldable pub trim_end : Text → Text
trim_end [] = []
trim_end (c ∷ s) = elim (trim_end s) [ [] ↦ if is_space c then [] else c ∷ [] | d ∷ t ↦ c ∷ d ∷ t ]

unfoldable pub trim : Text → Text
unfolding trim_start trim_end
trim s = trim_end (trim_start s)

-- The submit handler of the form: with both ids the hash is written and the comparison of the
-- trimmed ids is loaded, else nothing happens.
pub data Submitted : Type 0 where
  ignored : Submitted
  compare : (hash a b : Text) → Submitted

submit_ids : Text → Text → Submitted
submit_ids [] b = ignored
submit_ids (x ∷ a) [] = ignored
submit_ids (x ∷ a) (y ∷ b) =
    compare (diff_hash (encode_uri (x ∷ a)) (encode_uri (y ∷ b))) (x ∷ a) (y ∷ b)

unfoldable pub submit : Text → Text → Submitted
unfolding submit_ids
submit a b = submit_ids (trim a) (trim b)

-- The form that `renderDiff` writes, with the ids of the query.
unfoldable pub diff_form : Text → Text → List Piece
diff_form a b =
    lit
      "\n    <h1>Diff</h1>\n    <form class=\"diff-form\" id=\"diff-form\">\n      <label>Execution A <input type=\"text\" id=\"diff-a\" value=\""
    ∷ escaped a
    ∷ lit
        "\" placeholder=\"execution-id-a\" /></label>\n      <label>Execution B <input type=\"text\" id=\"diff-b\" value=\""
    ∷ escaped b
    ∷ lit
        "\" placeholder=\"execution-id-b\" /></label>\n      <button type=\"submit\" class=\"btn-primary\">Compare</button>\n    </form>\n    <div id=\"diff-result\"></div>"
    ∷ []
