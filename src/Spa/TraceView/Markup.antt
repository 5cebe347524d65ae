-- ===== src/Spa/TraceView/Markup.antt =====
-- The rows of a trace: one for each step, at its position, with tags that no step can change.
use native.Mathlib.Nat.{add-zero}
use trace_graph.Base.{
  ℕ, suc, Text, codes, count, decimal, length, List, [], ◌∷◌, ◌++◌, Option, none, some, ◌&&◌, ◌≡◌,
  refl, ◌+◌, ◌*◌, ◌-◌, arith, ◌⊎◌, inl, inr, All, ap, ◌∙◌, append_assoc, subst, text_eq, sym,
  Option-cases,
}
use trace_graph.Value.{
  Js, Items, items, arr, undefined, null, num, str, obj, Fields, field_at, get, opt_get, nullish,
  truthy, to_text,
}
use trace_graph.Spa.Platform.{Platform}
use trace_graph.Spa.Steps.{
  >>=-eq-some, or_empty, for_each, node_name, attempts, duration, show_elapsed, show_ms,
}
use trace_graph.Spa.Template.{Piece, markup, piece}
use trace_graph.Spa.Template.Brackets.{
  open_count, Opens, Opens-append, HasBrackets, markup-HasBrackets, HasBrackets-append,
  HasBrackets-decimal, HasBrackets-if,
}
use trace_graph.Spa.TraceView.{
  row_pieces, step_row, step_rows, ends_with, attribute, view_path, render_trace,
}
use trace_graph.Spa.Api.{ApiResult, value}
use mathlib.Core.Option.{some-injective}

-- The number of attempts of a step, as the server sends it, or left out.
abbrev pub IsAttempts : Js → Type 0
IsAttempts v = (v ≡ undefined) ⊎ (v ≡ null) ⊎ ((n : ℕ) × (v ≡ num n))

-- A step is an object; of its fields only the number of attempts is not escaped.
abbrev pub IsStep : Js → Type 0
IsStep s = (fs : Fields) × (s ≡ obj fs) × IsAttempts (field_at (codes "attempts") fs)

-- `toFixed` gives no angle bracket.
abbrev pub HasPlainSeconds : Platform → Type 0
HasPlainSeconds pf = (ms : ℕ) → HasBrackets (pf.seconds ms) 0

dash-HasBrackets : HasBrackets (codes "—") 0
unfolding codes count
dash-HasBrackets = (refl, refl)

unit-HasBrackets :
    (HasBrackets (codes "s") 0)
    × (HasBrackets (codes "ms") 0)
    × (HasBrackets (codes "-") 0)
    × (HasBrackets (codes "NaNms") 0)
unfolding codes count
unit-HasBrackets = ((refl, refl), (refl, refl), (refl, refl), (refl, refl))

pub attempts-num :
    (fs : Fields)
    → IsAttempts (field_at (codes "attempts") fs)
    → (n : ℕ) × (attempts (obj fs) ≡ some (decimal n))
unfolding attempts get opt_get nullish to_text
attempts-num fs (inl e) = (1, rw e refl)
attempts-num fs (inr (inl e)) = (1, rw e refl)
attempts-num fs (inr (inr (n, e))) = (n, rw e refl)

-- The pieces of a row.
row_pieces-Opens :
    (idx : ℕ) (name t : Text) (n : ℕ)
    → HasBrackets t 0
    → Opens (row_pieces idx name (decimal n) t) 10
unfolding row_pieces open_count count codes
row_pieces-Opens idx name t n (p, q) =
    let (i, j) = HasBrackets-decimal idx in
    let (k, l) = HasBrackets-decimal n in (omega arith, omega arith)

module _ (pf : Platform) (clean : HasPlainSeconds pf) where
  show_ms-HasBrackets : (ms : ℕ) → HasBrackets (show_ms pf ms) 0
  unfolding show_ms
  show_ms-HasBrackets ms =
      HasBrackets-if _ _ _ (HasBrackets-append _ _ 0 0 (clean ms) unit-HasBrackets.0)
        (HasBrackets-append _ _ 0 0 (HasBrackets-decimal ms) unit-HasBrackets.1)

  show_elapsed-HasBrackets : (a b : Option ℕ) → HasBrackets (show_elapsed pf a b) 0
  unfolding show_elapsed
  show_elapsed-HasBrackets none b = unit-HasBrackets.3
  show_elapsed-HasBrackets (some a) none = unit-HasBrackets.3
  show_elapsed-HasBrackets (some a) (some b) = HasBrackets-if _ _ _ (show_ms-HasBrackets (b - a)) (
      HasBrackets-append (codes "-") _ 0 0 unit-HasBrackets.2
        (HasBrackets-append _ _ 0 0 (HasBrackets-decimal (a - b)) unit-HasBrackets.1))

  duration-HasBrackets :
      (fs : Fields) → (t : Text) × (duration pf (obj fs) ≡ some t) × (HasBrackets t 0)
  unfolding duration get opt_get
  duration-HasBrackets fs =
      let started = field_at (codes "startedAt") fs in
      let completed = field_at (codes "completedAt") fs in
      (
        _,
        refl,
        HasBrackets-if (truthy started && truthy completed)
            (show_elapsed pf (pf.epoch started) (pf.epoch completed)) (codes "—")
            (show_elapsed-HasBrackets (pf.epoch started) (pf.epoch completed)) dash-HasBrackets,
      )

  step_row-Opens :
      (idx : ℕ) (s : Js)
      → IsStep s
      → (row : List Piece) × (step_row pf idx s ≡ some row) × (Opens row 10)
  unfolding step_row node_name get opt_get
  step_row-Opens idx s (fs, e, a) =
      let (n, tries) = attempts-num fs a in
      let (t, time, clean_t) = duration-HasBrackets fs in
      let name = to_text (nullish (field_at (codes "nodeName") fs) (str (codes "?"))) in
      (
        row_pieces idx name (decimal n) t,
        rw e (rw (tries, time)),
        row_pieces-Opens idx name t n clean_t,
      )

  pub step_rows-Opens :
      (idx : ℕ) (ss : List Js)
      → All IsStep ss
      → (rows : List Piece) × (step_rows pf idx ss ≡ some rows) × (Opens rows (10 * length ss))
  unfolding step_rows
  step_rows-Opens idx [] h = ([], refl, unfold open_count in (refl, refl))
  step_rows-Opens idx (s ∷ ss) (h, hs) =
      let (row, e, o) = step_row-Opens idx s h in
      let (rows, e', o') = step_rows-Opens (suc idx) ss hs in
      let (p, q) = Opens-append row rows 10 (10 * length ss) o o' in
      (row ++ rows, rw (e, e'), (omega (arith, p), omega (arith, q)))

  -- For every list of step objects whose `attempts` is absent or a number, the view has its rows,
  -- and their markup has the brackets of ten tags to a step, whatever the texts of the steps are.
  -- `toFixed` must give no angle bracket.
  pub step_rows-HasBrackets :
      (idx : ℕ) (ss : List Js)
      → All IsStep ss
      → (rows : List Piece) × (step_rows pf idx ss ≡ some rows)
        × (HasBrackets (markup rows) (10 * length ss))
  step_rows-HasBrackets idx ss h =
      let (rows, e, o) = step_rows-Opens idx ss h in
      (rows, e, markup-HasBrackets rows (10 * length ss) o)

-- The parts of the rows that a list with a first step gives.
pub step_rows-cons :
    (pf : Platform) (idx : ℕ) (s : Js) (ss : List Js) (rows : List Piece)
    → step_rows pf idx (s ∷ ss) ≡ some rows
    → (row : List Piece) × (rest : List Piece) × (step_row pf idx s ≡ some row)
      × (step_rows pf (suc idx) ss ≡ some rest)
      × (rows ≡ row ++ rest)
unfolding step_rows
step_rows-cons pf idx s ss rows h = elim (Option-cases (step_row pf idx s)) [
  | inl e ↦ absurd (ground arith)
  | inr (row, e) ↦ elim (Option-cases (step_rows pf (suc idx) ss)) [
    | inl e' ↦ absurd (ground arith)
    | inr (rest, e') ↦ (row, rest, e, e', ground arith)
  ]
]

-- The two attributes of a row.
abbrev HasIndex : List Piece → ℕ → Type 0
HasIndex row k =
    (attribute (codes "data-idx") row ≡ some (decimal k))
    × (attribute (codes "data-replay") row ≡ some (decimal k))

row_pieces-HasIndex : (k : ℕ) (name tries time : Text) → HasIndex (row_pieces k name tries time) k
unfolding row_pieces attribute ends_with piece codes text_eq
row_pieces-HasIndex k name tries time = (refl, refl)

step_row-HasIndex :
    (pf : Platform) (k : ℕ) (s : Js) (row : List Piece)
    → step_row pf k s ≡ some row
    → HasIndex row k
unfolding step_row
step_row-HasIndex pf k s row h =
    let (name, e, h') = >>=-eq-some (node_name s) _ h in
    let (tries, e', h'') = >>=-eq-some (attempts s) _ h' in
    let (time, e'', h3) = >>=-eq-some (duration pf s) _ h'' in
    subst (λ r. HasIndex r k) (some-injective _ _ h3) (row_pieces-HasIndex k name tries time)

row_of_step :
    (pf : Platform) (idx : ℕ) (xs : List Js) (s : Js) (ys : List Js) (rows : List Piece)
    → step_rows pf idx (xs ++ (s ∷ ys)) ≡ some rows
    → (before : List Piece) × (row : List Piece) × (after : List Piece) × (step_row pf
          (idx + length xs)
          s
        ≡ some row)
      × (rows ≡ before ++ (row ++ after))
row_of_step pf idx [] s ys rows h =
    let (row, after, e, e', parts) = step_rows-cons pf idx s ys rows h in
    ([], row, after, rw (add-zero idx) e, parts)
row_of_step pf idx (x ∷ xs) s ys rows h =
    let (first, rest, e, e', parts) = step_rows-cons pf idx x (xs ++ (s ∷ ys)) rows h in
    let (before, row, after, at_row, parts') = row_of_step pf (suc idx) xs s ys rest e' in
    let shift : idx + suc (length xs) ≡ suc idx + length xs = omega arith in
    (
      first ++ before,
      row,
      after,
      rw shift at_row,
      parts ∙ (ap (first ++◌) parts' ∙ sym (append_assoc first before (row ++ after))),
    )

-- If the rows are shown, then one of them is that of the step behind some others, and its
-- attributes `data-idx`, which a click reads, and `data-replay`, which the replay button reads, are
-- both the position of that step in the list.
pub step_rows-position :
    (pf : Platform) (xs : List Js) (s : Js) (ys : List Js) (rows : List Piece)
    → step_rows pf 0 (xs ++ (s ∷ ys)) ≡ some rows
    → (before : List Piece) × (row : List Piece) × (after : List Piece) × (rows
        ≡ before ++ (row ++ after))
      × (step_row pf (length xs) s ≡ some row)
      × (attribute (codes "data-idx") row ≡ some (decimal (length xs)))
      × (attribute (codes "data-replay") row ≡ some (decimal (length xs)))
step_rows-position pf xs s ys rows h =
    let (before, row, after, e, parts) = row_of_step pf 0 xs s ys rows h in
    let first : 0 + length xs ≡ length xs = omega arith in
    let (idx, replay) =
      step_row-HasIndex pf (length xs) s row (subst (λ k. step_row pf k s ≡ some row) first e) in
    (before, row, after, parts, subst (λ k. step_row pf k s ≡ some row) first e, idx, replay)

-- A null among the steps leaves no rows.
step_rows-null :
    (pf : Platform) (idx : ℕ) (xs ys : List Js) → step_rows pf idx (xs ++ (null ∷ ys)) ≡ none
unfolding step_rows
step_rows-null pf idx [] ys = unfold step_row node_name get in refl
step_rows-null pf idx (x ∷ xs) ys = elim (Option-cases (step_row pf idx x)) [
  | inl e ↦ rw e
  | inr (r, e) ↦ rw e (rw (step_rows-null pf (suc idx) xs ys))
]

-- If the answer to the request of a trace has a null among its steps, the view ends in a TypeError,
-- whatever stands round it: it shows neither the trace nor the message for a failed request.
pub render_trace-null :
    (pf : Platform) (api : Text → ApiResult) (id : Text) (trace : Js) (vs : Items) (xs ys : List Js)
    → api (view_path id) ≡ value trace
    → get (codes "steps") trace ≡ some (arr vs)
    → items vs ≡ xs ++ (null ∷ ys)
    → render_trace pf api id ≡ none
unfolding render_trace or_empty nullish for_each
render_trace-null pf api id trace vs xs ys a g h =
    rw (a, render_trace) (rw g (rw h (rw (step_rows-null pf 0 xs ys) refl)))
