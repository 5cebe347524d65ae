-- ===== src/Complexity.antt =====
-- `GraphComplexity` of
-- tracegraph-core/src/main/java/io/tracegraph/core/analysis/GraphComplexity.java, whose numbers the
-- graph view and the studio show.
pub mod Depth
pub mod Walks
mod Tests
use trace_graph.Base.{
  ℕ, zero, suc, ◌+◌, ◌*◌, Text, text_eq, leb, ltb, any, length, if◌then◌else◌, List, [], ◌∷◌, Bool,
  true, false, ◌||◌, Option, none, some,
}

-- An edge of a graph, without its predicate.
pub record Edge : Type 0 where
  pub from : Text
  pub to : Text
  pub is_unconditional : Bool

-- `adj.getOrDefault(node, List.of())`: the ends of the edges of a node, in the order of the edges.
unfoldable pub neighbours : List Edge → Text → List Text
neighbours [] node = []
neighbours (e ∷ es) node =
    let rest = neighbours es node in if text_eq e.from node then e.to ∷ rest else rest

-- A frame of the stack.
pub record Frame : Type 0 where
  pub node : Text
  pub depth : ℕ
  pub visited : List Text

unfoldable pub contains : List Text → Text → Bool
contains visited node = any (text_eq node) visited

-- The pushes of the neighbours: the last one is on top.
unfoldable pub push_all : List Text → ℕ → List Text → List Frame → List Frame
push_all [] depth visited stack = stack
push_all (n ∷ ns) depth visited stack =
    push_all ns depth visited (record { node = n; depth = depth; visited = visited } ∷ stack)

-- The stack after the round of a frame that was popped.
unfoldable pub visit : ℕ → List Edge → Frame → List Frame → List Frame
unfolding contains push_all neighbours
visit cap edges f stack =
    if leb cap f.depth || contains f.visited f.node
    then stack
    else push_all (neighbours edges f.node) (suc f.depth) (f.node ∷ f.visited) stack

unfoldable pub larger : ℕ → ℕ → ℕ
larger max depth = if ltb max depth then depth else max

-- The loop; `none` when the fuel does not suffice.
unfoldable pub depth_loop : ℕ → ℕ → List Edge → List Frame → ℕ → Option ℕ
unfolding visit larger
depth_loop fuel cap edges [] max = some max
depth_loop zero cap edges (f ∷ stack) max = none
depth_loop (suc fuel) cap edges (f ∷ stack) max =
    depth_loop fuel cap edges (visit cap edges f stack) (larger max f.depth)

-- How many frames a frame can lead to, when it is some steps below the cap.
unfoldable pub rounds : ℕ → List Edge → ℕ
rounds zero edges = 1
rounds (suc left) edges = suc (length edges * rounds left edges)

-- `longestPath(start, adj, nodeCount)`
unfoldable pub longest_path : Text → List Edge → ℕ → Option ℕ
unfolding depth_loop rounds
longest_path start edges node_count =
    depth_loop (rounds node_count edges) node_count edges
      (record { node = start; depth = 0; visited = [] } ∷ []) 0
