-- ===== src/Spa/Router.antt =====
-- The hash router of app.js: `route`, and the hashes that the app itself writes.
pub mod Laws
mod Tests
use trace_graph.Base.{
  Text, codes, text_eq, remove_first, split_head, split_tail, if◌then◌else◌, List, [], ◌∷◌, ◌++◌,
}

-- The view that a hash opens. `diff` has the query text that goes to `URLSearchParams`.
pub data View : Type 0 where
  trace_list : View
  trace : Text → View
  graph : View
  diff : Text → View

-- `location.hash || '#/traces'`
or_default : Text → Text
or_default [] = codes "#/traces"
or_default (c ∷ h) = c ∷ h

-- `xs[0] || ''` for a list of texts.
first_text : List Text → Text
first_text [] = []
first_text (t ∷ _) = t

-- `case 'traces'`: the id is the segment behind the first slash, if there is one.
traces_view : List Text → View
traces_view [] = trace_list
traces_view (id ∷ _) = trace id

pub route_of : Text → Text → List Text → View
route_of hash base rest =
    if text_eq base (codes "traces")
    then traces_view rest
    else if text_eq base (codes "graph")
    then graph
    else if text_eq base (codes "diff")
    then diff (first_text (split_tail b'?' hash))
    else trace_list

unfoldable pub route : Text → View
unfolding or_default route_of traces_view first_text
route location_hash =
    let hash = or_default location_hash in
    let path = remove_first (codes "#/") hash in
    route_of hash (split_head b'/' path) (split_tail b'/' path)

-- A click on a row of the trace list: `#/traces/${tr.dataset.id}`.
unfoldable pub row_hash : Text → Text
row_hash id = codes "#/traces/" ++ id

-- The submit handler of the diff form, on the ids as `encodeURIComponent` gives them.
unfoldable pub diff_hash : Text → Text → Text
diff_hash a b = codes "#/diff?a=" ++ (a ++ (codes "&b=" ++ b))
