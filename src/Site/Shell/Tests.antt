-- ===== src/Site/Shell/Tests.antt =====
use trace_graph.Base.{codes, ◌≡◌, refl, text_eq, split_head}
use trace_graph.Site.Shell.{parse_route}

parse_route_tests :
    (parse_route (codes "#/docs/quickstart") ≡ codes "docs")
    × (parse_route (codes "#install") ≡ codes "home")
unfolding parse_route codes text_eq split_head
parse_route_tests = (refl, refl)
