-- ===== src/Spa/Router/Tests.antt =====
-- Runs of the router.
use trace_graph.Base.{
  codes, text_eq, remove_first, strip_prefix, split_head, split_tail, [], ◌≡◌, refl,
}
use trace_graph.Spa.Router.{trace_list, trace, graph, diff, route}

route_tests :
    (route [] ≡ trace_list)
    × (route (codes "#/traces/ab/c") ≡ trace (codes "ab"))
    × (route (codes "#/graph") ≡ graph)
    × (route (codes "#/diff/?a=1") ≡ diff (codes "a=1"))
    × (route (codes "#/diff") ≡ diff [])
unfolding route codes remove_first strip_prefix split_head split_tail text_eq
route_tests = (refl, refl, refl, refl, refl)
