-- ===== src/Spa/DiffView/Rows.antt =====
-- The lines of a comparison are numbered as the steps of the two executions are.
use native.Mathlib.Nat.{add-zero}
use trace_graph.Base.{
  ℕ, suc, Text, codes, decimal, length, List, Option-cases, inl, inr, [], ◌∷◌, ◌++◌, some, ◌≡◌,
  refl, ◌+◌, arith, All, ap, sym, ◌∙◌, append_assoc,
}
use trace_graph.Value.{
  Js, arr, obj, num, str, Items, items, Fields, field_at, get, opt_get, nullish, to_text,
}
use trace_graph.Spa.Platform.{Platform}
use trace_graph.Spa.Api.{ApiResult, value}
use trace_graph.Spa.Steps.{or_empty, node_name}
use trace_graph.Spa.Template.{Piece}
use trace_graph.Spa.TraceView.Markup.{IsStep, attempts-num}
use trace_graph.Spa.DiffView.{
  diff_path, remainder, length_of, are_shown, is_array, plus_index, line_pieces, step_line,
  step_lines, diff_summary, prefix_block, columns_block, diff_page, load_diff,
}

step_line-some : (s : Js) (i : Text) → IsStep s → (line : List Piece) × (step_line s i ≡ some line)
unfolding step_line node_name get opt_get
step_line-some s i (fs, e, a) =
    let (n, tries) = attempts-num fs a in
    let name = to_text (nullish (field_at (codes "nodeName") fs) (str (codes "?"))) in
    (line_pieces i name (decimal n), rw e (rw tries))

-- The lines of a list of steps are there, for any way to number them.
pub step_lines-some :
    (label : ℕ → Text) (i : ℕ) (ss : List Js)
    → All IsStep ss
    → (lines : List Piece) × (step_lines label i ss ≡ some lines)
unfolding step_lines
step_lines-some label i [] h = ([], refl)
step_lines-some label i (s ∷ ss) (h, hs) =
    let (line, e) = step_line-some s (label i) h in
    let (lines, e') = step_lines-some label (suc i) ss hs in (line ++ lines, rw (e, e'))

-- The parts of the lines that a list with a first step gives.
step_lines-cons :
    (label : ℕ → Text) (i : ℕ) (s : Js) (ss : List Js) (lines : List Piece)
    → step_lines label i (s ∷ ss) ≡ some lines
    → (line : List Piece) × (rest : List Piece) × (step_line s (label i) ≡ some line)
      × (step_lines label (suc i) ss ≡ some rest)
      × (lines ≡ line ++ rest)
unfolding step_lines
step_lines-cons label i s ss lines h = elim (Option-cases (step_line s (label i))) [
  | inl e ↦ absurd (ground arith)
  | inr (line, e) ↦ elim (Option-cases (step_lines label (suc i) ss)) [
    | inl e' ↦ absurd (ground arith)
    | inr (rest, e') ↦ (line, rest, e, e', ground arith)
  ]
]

step_lines-append :
    (label : ℕ → Text) (i : ℕ) (xs ys : List Js) (first second : List Piece)
    → step_lines label i xs ≡ some first
    → step_lines label (i + length xs) ys ≡ some second
    → step_lines label i (xs ++ ys) ≡ some (first ++ second)
unfolding step_lines
step_lines-append label i [] ys first second h k =
    let nothing : first ≡ [] = ground arith in rw nothing (rw (add-zero i) at k)
step_lines-append label i (x ∷ xs) ys first second h k =
    let (line, rest, e, e', parts) = step_lines-cons label i x xs first h in
    let shift : i + suc (length xs) ≡ suc i + length xs = omega arith in
    rw (e, step_lines-append label (suc i) xs ys rest second e' (rw shift at k))
      (ap some (sym (append_assoc line rest second) ∙ ap (λ l. l ++ second) (sym parts)))

-- Numbers that start at an index are the plain ones from there on.
step_lines-plus_index :
    (pf : Platform) (n i : ℕ) (ss : List Js)
    → step_lines (plus_index pf (num n)) i ss ≡ step_lines decimal (n + i) ss
unfolding step_lines plus_index
step_lines-plus_index pf n i [] = refl
step_lines-plus_index pf n i (s ∷ ss) =
    let shift : n + suc i ≡ suc (n + i) = omega arith in
    rw (step_lines-plus_index pf n (suc i) ss) (rw shift)

-- The lines of a remainder whose numbers start at the length of the prefix carry on the lines of
-- the prefix: together they are the lines of the whole execution, numbered from zero.
remainder_lines :
    (pf : Platform) (prefix rest : List Js) (first : List Piece)
    → step_lines decimal 0 prefix ≡ some first
    → All IsStep rest
    → (second : List Piece) × (step_lines (plus_index pf (num (length prefix))) 0 rest
        ≡ some second)
      × (step_lines decimal 0 (prefix ++ rest) ≡ some (first ++ second))
remainder_lines pf prefix rest first e k =
    let (second, e') = step_lines-some (plus_index pf (num (length prefix))) 0 rest k in
    let plain : step_lines decimal (length prefix + 0) rest ≡ some second =
      sym (step_lines-plus_index pf (length prefix) 0 rest) ∙ e' in
    let shift : length prefix + 0 ≡ 0 + length prefix = omega arith in
    (second, e', step_lines-append decimal 0 prefix rest first second e (rw shift at plain))

-- A document of the server for two executions that diverge: an object with the three lists of
-- steps, and the index of the first step that is not shared.
pub record IsDiff (fs : Fields) (prefix left right : Items) : Type 0 where
  pub common : field_at (codes "commonPrefix") fs ≡ arr prefix
  pub lefts : field_at (codes "leftRemainder") fs ≡ arr left
  pub rights : field_at (codes "rightRemainder") fs ≡ arr right
  pub index : field_at (codes "divergenceIndex") fs ≡ num (length (items prefix))
  pub prefix_steps : All IsStep (items prefix)
  pub left_steps : All IsStep (items left)
  pub right_steps : All IsStep (items right)

diff_page-parts :
    (pf : Platform) (a b : Text) (fs : Fields) (prefix left right : Items)
    → IsDiff fs prefix left right
    → (common lefts rights : List Piece) → step_lines decimal 0 (items prefix) ≡ some common
    → step_lines (plus_index pf (num (length (items prefix)))) 0 (items left) ≡ some lefts
    → step_lines (plus_index pf (num (length (items prefix)))) 0 (items right) ≡ some rights
    → diff_page pf a b (obj fs)
      ≡ some (
          diff_summary (obj fs) (num (length (items prefix)))
          ++ (prefix_block (items prefix) common
              ++ columns_block a b
                  (num (length (items prefix)))
                  (items left)
                  (items right)
                  lefts
                  rights))
unfolding diff_page get opt_get or_empty nullish remainder length_of are_shown is_array
diff_page-parts pf a b fs prefix left right d common lefts rights e el er =
    rw (d.common, d.lefts, d.rights, d.index, e, el, er) refl

-- When the server answers with a document whose three lists hold steps and whose divergence index
-- is the length of the common prefix, the comparison is shown, and the lines of each execution,
-- prefix and remainder together, are the lines of all its steps numbered from zero.
pub load_diff-numbering :
    (pf : Platform) (api : Text → ApiResult) (a b : Text) (fs : Fields) (prefix left right : Items)
    → api (diff_path a b) ≡ value (obj fs)
    → IsDiff fs prefix left right
    → (common : List Piece) × (lefts : List Piece) × (rights : List Piece) × (load_diff pf api a b
        ≡ some (
            diff_summary (obj fs) (num (length (items prefix)))
            ++ (prefix_block (items prefix) common
                ++ columns_block a b
                    (num (length (items prefix)))
                    (items left)
                    (items right)
                    lefts
                    rights)))
      × (step_lines decimal 0 (items prefix ++ items left) ≡ some (common ++ lefts))
      × (step_lines decimal 0 (items prefix ++ items right) ≡ some (common ++ rights))
unfolding load_diff diff_summary
load_diff-numbering pf api a b fs prefix left right h d =
    let (common, e) = step_lines-some decimal 0 (items prefix) d.prefix_steps in
    let (lefts, el, al) = remainder_lines pf (items prefix) (items left) common e d.left_steps in
    let (rights, er, ar) = remainder_lines pf (items prefix) (items right) common e d.right_steps in
    (
      common,
      lefts,
      rights,
      rw (h, load_diff) (diff_page-parts pf a b fs prefix left right d common lefts rights e el er),
      al,
      ar,
    )
