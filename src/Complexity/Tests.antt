-- ===== src/Complexity/Tests.antt =====
-- Two nodes, each with an edge to the other: the walk that comes back counts two edges.
use trace_graph.Base.{ℕ, codes, text_eq, List, [], ◌∷◌, true, some, ◌≤◌, ◌≡◌, refl, arith}
use trace_graph.Complexity.{Edge, neighbours, contains, longest_path}
use trace_graph.Complexity.Walks.{Trail, stop, move, longest_path-longest}

abbrev two_ways : List Edge
two_ways =
    record { from = codes "a"; to = codes "b"; is_unconditional = true }
    ∷ record { from = codes "b"; to = codes "a"; is_unconditional = true }
    ∷ []

-- a, b, a.
back : Trail two_ways [] (codes "a") 2
unfolding neighbours contains text_eq codes
back = move [] (codes "b") [] refl refl (move [] (codes "a") [] refl refl stop)

longest_path-longest_example :
    (k : ℕ) × (longest_path (codes "a") two_ways 2 ≡ some k)
    × (k ≤ 2)
    × (2 ≤ k)
    × Trail two_ways [] (codes "a") k
longest_path-longest_example = longest_path-longest (codes "a") two_ways 2 2 back (omega arith)

two_ways-depth : longest_path (codes "a") two_ways 2 ≡ some 2
unfolding longest_path text_eq codes
two_ways-depth = refl
