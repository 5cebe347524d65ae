-- ===== src/TraceDiff/Shown.antt =====
-- The document of the server in the diff view of the app.
use trace_graph.Base.{
  Bool, ℕ, length-map, subst, Text, codes, decimal, List, [], ◌∷◌, ◌++◌, Option, none, some, length,
  map, All, append-nil, ◌≡◌, refl, ap, sym, ◌∙◌, ◌⊎◌, inl, inr,
}
use mathlib.Core.List.{map-append}
use trace_graph.Value.{
  Js, arr, obj, num, other_num, Items, nil, cons, items, Fields, field_at, nullish,
}
use trace_graph.Spa.Platform.{Platform}
use trace_graph.Spa.Api.{ApiResult, value}
use trace_graph.Spa.Template.{Piece}
use trace_graph.Spa.TraceView.Markup.{IsStep}
use trace_graph.Spa.DiffView.{
  diff_path, step_lines, diff_summary, prefix_block, columns_block, load_diff,
}
use trace_graph.Spa.DiffView.Rows.{IsDiff, load_diff-numbering}
use trace_graph.Spa.DiffView.Identical.{IsIdentical, load_diff-identical}
use trace_graph.TraceDiff.{Diff, between}
use trace_graph.TraceDiff.Laws.{between-longest, divergence-cases}

-- A list of values as an array.
abbrev pub to_items : List Js → Items
to_items [] = nil
to_items (v ∷ vs) = cons v (to_items vs)

items-to_items : (vs : List Js) → items (to_items vs) ≡ vs
unfolding items
items-to_items [] = refl
items-to_items (v ∷ vs) = ap (λ ws. v ∷ ws) (items-to_items vs)

abbrev pub index_json : Option ℕ → Js
index_json none = other_num (codes "-1")
index_json (some n) = num n

-- The components of the record as the fields of the document, the steps by their own JSON.
pub record Encodes {A : Type 0} (step_json : A → Js) (fs : Fields) (d : Diff A) : Type 0 where
  pub common : field_at (codes "commonPrefix") fs ≡ arr (to_items (map step_json d.common_prefix))
  pub lefts : field_at (codes "leftRemainder") fs ≡ arr (to_items (map step_json d.left_remainder))
  pub rights :
      field_at (codes "rightRemainder") fs ≡ arr (to_items (map step_json d.right_remainder))
  pub index : field_at (codes "divergenceIndex") fs ≡ index_json d.divergence

-- The page of a comparison, by its lists of steps and their lines.
abbrev pub page :
    Text
    → Text
    → Js
    → Js
    → List Js
    → List Js
    → List Js
    → List Piece
    → List Piece
    → List Piece
    → List Piece
page a b diff index common left right common_lines left_lines right_lines =
    diff_summary diff index
    ++ (prefix_block common common_lines
        ++ columns_block a b index left right left_lines right_lines)

-- The view shows the page for these lists, with the lines of the prefix and of each remainder
-- together numbered from zero.
pub record IsShown (pf : Platform) (shown : Option (List Piece)) (a b : Text) (diff index : Js)
    (common left right : List Js) : Type 0 where
  pub common_lines : List Piece
  pub left_lines : List Piece
  pub right_lines : List Piece
  pub whole :
      shown ≡ some (page a b diff index common left right common_lines left_lines right_lines)
  pub left_numbered : step_lines decimal 0 (common ++ left) ≡ some (common_lines ++ left_lines)
  pub right_numbered : step_lines decimal 0 (common ++ right) ≡ some (common_lines ++ right_lines)

module _ (pf : Platform) (api : Text → ApiResult) (a b : Text) (fs : Fields)
    (answer : api (diff_path a b) ≡ value (obj fs)) where
  IsShown-diverging :
      (common left right : List Js)
      → field_at (codes "commonPrefix") fs ≡ arr (to_items common)
      → field_at (codes "leftRemainder") fs ≡ arr (to_items left)
      → field_at (codes "rightRemainder") fs ≡ arr (to_items right)
      → field_at (codes "divergenceIndex") fs ≡ num (length common)
      → All IsStep common
      → All IsStep left
      → All IsStep right
      → IsShown pf (load_diff pf api a b) a b (obj fs) (num (length common)) common left right
  IsShown-diverging common left right c l r i hc hl hr =
      let d : IsDiff fs (to_items common) (to_items left) (to_items right) = record {
        common = c;
        lefts = l;
        rights = r;
        index = rw (items-to_items common) i;
        prefix_steps = rw (items-to_items common) hc;
        left_steps = rw (items-to_items left) hl;
        right_steps = rw (items-to_items right) hr;
      } in
      let (cl, ll, rl, w, nl, nr) =
        load_diff-numbering pf api a b fs (to_items common) (to_items left) (to_items right) answer
          d in
      record {
        common_lines = cl;
        left_lines = ll;
        right_lines = rl;
        whole = rw (items-to_items common, items-to_items left, items-to_items right) at w;
        left_numbered = rw (items-to_items common, items-to_items left) at nl;
        right_numbered = rw (items-to_items common, items-to_items right) at nr;
      }

  IsShown-identical :
      (common : List Js)
      → field_at (codes "commonPrefix") fs ≡ arr (to_items common)
      → field_at (codes "leftRemainder") fs ≡ arr nil
      → field_at (codes "rightRemainder") fs ≡ arr nil
      → field_at (codes "divergenceIndex") fs ≡ other_num (codes "-1")
      → All IsStep common
      → IsShown pf (load_diff pf api a b) a b (obj fs) (other_num (codes "-1")) common [] []
  unfolding columns_block
  IsShown-identical common c l r i hc =
      let d : IsIdentical fs (to_items common) (other_num (codes "-1")) = record {
        common = c;
        lefts = l;
        rights = r;
        divergence = unfold nullish in rw i refl;
        prefix_steps = rw (items-to_items common) hc;
      } in
      let (cl, n, w) =
        load_diff-identical pf api a b fs (to_items common) (other_num (codes "-1")) answer d in
      record {
        common_lines = cl;
        left_lines = [];
        right_lines = [];
        whole = rw (items-to_items common) at w;
        left_numbered = rw (append-nil common, append-nil cl) (rw (items-to_items common) at n);
        right_numbered = rw (append-nil common, append-nil cl) (rw (items-to_items common) at n);
      }

All-IsStep :
    {A : Type 0} (step_json : A → Js) (xs : List A)
    → ((x : A) → IsStep (step_json x))
    → All IsStep (map step_json xs)
All-IsStep step_json [] h = tt
All-IsStep step_json (x ∷ xs) h = (h x, All-IsStep step_json xs h)

Encodes-IsShown :
    {A : Type 0} (step_json : A → Js) (d : Diff A) (pf : Platform) (api : Text → ApiResult)
    (a b : Text) (fs : Fields)
    → api (diff_path a b) ≡ value (obj fs)
    → Encodes step_json fs d
    → ((x : A) → IsStep (step_json x))
    → ((d.divergence ≡ none) × (d.left_remainder ≡ []) × (d.right_remainder ≡ []))
      ⊎ (d.divergence ≡ some (length d.common_prefix))
    → IsShown pf
        (load_diff pf api a b)
        a
        b
        (obj fs)
        (index_json d.divergence)
        (map step_json d.common_prefix)
        (map step_json d.left_remainder)
        (map step_json d.right_remainder)
Encodes-IsShown step_json d pf api a b fs h enc steps (inl (e, l, r)) =
    rw (e, l, r)
      (IsShown-identical pf api a b fs h (map step_json d.common_prefix) enc.common
        (enc.lefts ∙ ap (λ xs. arr (to_items (map step_json xs))) l)
        (enc.rights ∙ ap (λ xs. arr (to_items (map step_json xs))) r) (enc.index ∙ ap index_json e)
        (All-IsStep step_json d.common_prefix steps))
Encodes-IsShown step_json d pf api a b fs h enc steps (inr e) = rw e (
    subst
      (λ n.
        IsShown pf (load_diff pf api a b) a b (obj fs) (num n) (map step_json d.common_prefix)
          (map step_json d.left_remainder) (map step_json d.right_remainder))
      (length-map step_json d.common_prefix)
      (IsShown-diverging pf api a b fs h (map step_json d.common_prefix)
        (map step_json d.left_remainder) (map step_json d.right_remainder) enc.common enc.lefts
        enc.rights
        (enc.index ∙ (ap index_json e ∙ ap num (sym (length-map step_json d.common_prefix))))
        (All-IsStep step_json d.common_prefix steps) (All-IsStep step_json d.left_remainder steps)
        (All-IsStep step_json d.right_remainder steps)))

-- When the server answers with the comparison of two executions, its components as the fields of
-- the document and each step as an object whose `attempts` is absent or a number, the diff view
-- shows it, whether or not they diverge: the lines of the prefix and of a remainder together are
-- the lines of all steps of the left execution, and of the left prefix with what the right one has
-- behind it, numbered from zero.
pub between-IsShown :
    {A : Type 0} (steps_equal : A → A → Bool) (step_json : A → Js) (ls rs : List A) (pf : Platform)
    (api : Text → ApiResult) (a b : Text) (fs : Fields)
    → api (diff_path a b) ≡ value (obj fs)
    → Encodes step_json fs (between steps_equal ls rs)
    → ((x : A) → IsStep (step_json x))
    → IsShown pf
        (load_diff pf api a b)
        a
        b
        (obj fs)
        (index_json (between steps_equal ls rs).divergence)
        (map step_json (between steps_equal ls rs).common_prefix)
        (map step_json (between steps_equal ls rs).left_remainder)
        (map step_json (between steps_equal ls rs).right_remainder)
      × (map step_json (between steps_equal ls rs).common_prefix
            ++ map step_json (between steps_equal ls rs).left_remainder
          ≡ map step_json ls)
between-IsShown steps_equal step_json ls rs pf api a b fs h enc steps = (
  Encodes-IsShown step_json (between steps_equal ls rs) pf api a b fs h enc steps
      (divergence-cases steps_equal ls rs),
  sym (
        map-append step_json (between steps_equal ls rs).common_prefix
          (between steps_equal ls rs).left_remainder)
      ∙ ap (map step_json) (between-longest steps_equal ls rs).0,
)
