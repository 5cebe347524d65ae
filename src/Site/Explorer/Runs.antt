-- ===== src/Site/Explorer/Runs.antt =====
-- The list of runs in the top bar of trace.jsx: the runs that the server lists, or the sample.
use trace_graph.Base.{
  ◌||◌, true, false, Text, codes, if◌then◌else◌, List, [], ◌∷◌, Bool, Option, none, some, map, ◌≡◌,
  refl, ap, text_eq,
}
use mathlib.Core.Option
use trace_graph.Value.{
  Js, str, arr, obj, Items, nil, cons, end, field, field_at, opt_get, get, truthy, items,
}
use trace_graph.Site.Explorer.Data.{Run}

-- An entry made from the server's answer, whose parts can be any value.
pub record RunView : Type 0 where
  pub id : Js
  pub graph : Js
  pub status : Js

-- `v || d`
unfoldable pub or_default : Js → Js → Js
or_default v d = if truthy v then v else d

-- The entry for `id`; `none` is the TypeError on null and undefined.
unfoldable pub run_view : Js → Option RunView
unfolding or_default
run_view (str s) =
    some (record { id = str s; graph = str (codes "graph"); status = str (codes "COMPLETED") })
run_view v =
    Option.map
      (λ execution_id. record {
        id = execution_id;
        graph = or_default (opt_get (codes "graph") v) (str (codes "graph"));
        status = or_default (opt_get (codes "status") v) (str (codes "COMPLETED"));
      })
      (get (codes "executionId") v)

unfoldable pub run_views : List Js → Option (List RunView)
unfolding run_view
run_views [] = some []
run_views (v ∷ vs) = elim (run_view v) [
  | none ↦ none
  | some r ↦ Option.map (λ rs. r ∷ rs) (run_views vs)
]

-- What the fetch stores: `d.items` where it is true, else `d` where it is an array, else nothing.
unfoldable pub live_ids : Js → Js
live_ids d =
    if truthy (if truthy d then opt_get (codes "items") d else d)
    then opt_get (codes "items") d
    else elim d [ arr vs ↦ arr vs | _ ↦ arr nil ]

-- Whether the reply is stored: one with neither leaves the state.
unfoldable pub stores : Js → Bool
stores d =
    truthy (if truthy d then opt_get (codes "items") d else d)
    || elim d [ arr vs ↦ true | _ ↦ false ]

unfoldable pub store_ids : Js → Js → Js
unfolding live_ids stores
store_ids before d = if stores d then live_ids d else before

unfoldable pub sample_view : Run → RunView
sample_view r = record { id = str r.id; graph = str r.graph; status = str r.status }

-- The list of the top bar. `exceeds_zero` is the language's `v > 0`.
module _ (exceeds_zero : Js → Bool) where
  unfoldable pub trace_runs : List Run → Js → Option (List RunView)
  unfolding run_views sample_view
  trace_runs sample (arr nil) = some (map sample_view sample)
  trace_runs sample (arr (cons v vs)) = run_views (v ∷ items vs)
  trace_runs sample (str []) = some (map sample_view sample)
  trace_runs sample (str (c ∷ s)) = none
  trace_runs sample (obj fs) =
      if exceeds_zero (field_at (codes "length") fs) then none else some (map sample_view sample)
  trace_runs sample v = some (map sample_view sample)

-- The array of these texts.
abbrev pub id_items : List Text → Items
id_items [] = nil
id_items (t ∷ ts) = cons (str t) (id_items ts)

-- The entry that a bare id gets.
abbrev pub completed_run : Text → RunView
completed_run t = record {
  id = str t;
  graph = str (codes "graph");
  status = str (codes "COMPLETED");
}

run_views-ids : (ts : List Text) → run_views (items (id_items ts)) ≡ some (map completed_run ts)
unfolding run_views run_view items
run_views-ids [] = refl
run_views-ids (t ∷ ts) = ap (Option.map (λ rs. completed_run t ∷ rs)) (run_views-ids ts)

-- When the server answers with ids, either as an array or as the `items` of a page, the list has
-- one entry for each id, in order, and each entry says COMPLETED, whatever became of the run; with
-- no ids it is the sample.
pub trace_runs-ids :
    (exceeds_zero : Js → Bool) (sample : List Run) (t : Text) (ts : List Text)
    → (trace_runs exceeds_zero sample (live_ids (arr (id_items (t ∷ ts))))
        ≡ some (map completed_run (t ∷ ts)))
      × (trace_runs exceeds_zero sample
            (live_ids (obj (field (codes "items") (arr (id_items (t ∷ ts))) end)))
          ≡ some (map completed_run (t ∷ ts)))
      × (trace_runs exceeds_zero sample (live_ids (arr nil)) ≡ some (map sample_view sample))
unfolding trace_runs live_ids truthy opt_get field_at codes text_eq items
trace_runs-ids exceeds_zero sample t ts = (run_views-ids (t ∷ ts), run_views-ids (t ∷ ts), refl)
