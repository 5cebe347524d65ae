-- ===== src/Spa/Router/Laws.antt =====
-- What the hashes that the app writes open.
use trace_graph.Base.{
  Text, codes, text_eq, remove_first, strip_prefix, split_head, split_tail, ◌∷◌, ◌++◌, ◌≡◌, refl,
  Lacks, split_head-Lacks, split_head-append, ap,
}
use trace_graph.Spa.Router.{trace_list, trace, route, row_hash, diff_hash}

-- The hash that a click on a row writes opens the trace of that row, for every id that holds no
-- slash.
pub route-row_hash : (id : Text) → Lacks b'/' id → route (row_hash id) ≡ trace id
unfolding route row_hash codes remove_first strip_prefix split_head split_tail text_eq
route-row_hash id h = ap trace (split_head-Lacks b'/' id h)

-- An id with a slash is cut at the slash.
pub route-row_hash_cut :
    (id rest : Text) → Lacks b'/' id → route (row_hash (id ++ (b'/' ∷ rest))) ≡ trace id
unfolding route row_hash codes remove_first strip_prefix split_head split_tail text_eq
route-row_hash_cut id rest h = ap trace (split_head-append b'/' id rest h)

-- The hash that the diff form writes never opens the diff view: the base of such a hash is all of
-- its text up to a slash, query included, so the router falls through to the trace list.
pub route-diff_hash : (a b : Text) → route (diff_hash a b) ≡ trace_list
unfolding route diff_hash codes remove_first strip_prefix split_head split_tail text_eq
route-diff_hash a b = refl
