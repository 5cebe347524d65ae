-- ===== src/Complexity/Depth.antt =====
-- The loop of `longestPath` against the recursion that it unrolls.
use trace_graph.Base.{
  ℕ, zero, suc, ◌+◌, ◌-◌, ◌*◌, ◌≤◌, Text, leb, length, if◌then◌else◌, List, [], ◌∷◌, true, false,
  some, map, ◌≡◌, refl, arith, Bool-cases, inl, inr, ap, ◌∙◌,
}
use trace_graph.Complexity.{
  Edge, neighbours, Frame, contains, push_all, visit, larger, depth_loop, rounds, longest_path,
}

-- The largest of a number and some others.
unfoldable pub largest : ℕ → List ℕ → ℕ
unfolding larger
largest base [] = base
largest base (x ∷ xs) = larger (largest base xs) x

-- The depth that is reached from a node, `left` steps below the cap.
unfoldable pub deepest : ℕ → List Edge → Text → ℕ → List Text → ℕ
unfolding largest neighbours contains
deepest zero edges node depth visited = depth
deepest (suc left) edges node depth visited =
    if contains visited node
    then depth
    else largest depth
        (map (λ m. deepest left edges m (suc depth) (node ∷ visited)) (neighbours edges node))

unfoldable total : List ℕ → ℕ
total [] = 0
total (x ∷ xs) = x + total xs

-- The number of frames that come from a node.
unfoldable frames : ℕ → List Edge → Text → List Text → ℕ
unfolding total neighbours contains
frames zero edges node visited = 1
frames (suc left) edges node visited =
    if contains visited node
    then 1
    else suc (total (map (λ m. frames left edges m (node ∷ visited)) (neighbours edges node)))

larger-largest_base : (a b : ℕ) (xs : List ℕ) → largest (larger b a) xs ≡ larger b (largest a xs)
unfolding largest
larger-largest_base a b [] = refl
larger-largest_base a b (x ∷ xs) = rw (larger-largest_base a b xs) (swap b (largest a xs) x)
  where
    swap : (b l x : ℕ) → larger (larger b l) x ≡ larger b (larger l x)
    swap b l x = unfold larger in ground arith

neighbours-length :
    (edges : List Edge) (node : Text) → length (neighbours edges node) ≤ length edges
unfolding neighbours
neighbours-length [] node = omega arith
neighbours-length (e ∷ es) node = ground (arith, neighbours-length es node)

larger_comm : (a b : ℕ) → larger a b ≡ larger b a
unfolding larger
larger_comm a b = ground arith

-- What the loop makes of the frames of the stack.
module _ (cap : ℕ) (edges : List Edge) where
  abbrev depth_of : Frame → ℕ
  depth_of f = deepest (cap - f.depth) edges f.node f.depth f.visited

  abbrev cost_of : Frame → ℕ
  cost_of f = frames (cap - f.depth) edges f.node f.visited

  push_all-depths :
      (ns : List Text) (d : ℕ) (v : List Text) (stack : List Frame) (m : ℕ)
      → largest m (map depth_of (push_all ns d v stack))
        ≡ largest (largest m (map depth_of stack)) (map (λ n. deepest (cap - d) edges n d v) ns)
  unfolding push_all largest
  push_all-depths [] d v stack m = refl
  push_all-depths (n ∷ ns) d v stack m =
      push_all-depths ns d v (record { node = n; depth = d; visited = v } ∷ stack) m
      ∙ (ap (λ b. largest b (map (λ n. deepest (cap - d) edges n d v) ns)) (larger_comm below new)
          ∙ (larger-largest_base below new (map (λ n. deepest (cap - d) edges n d v) ns)
              ∙ larger_comm new (largest below (map (λ n. deepest (cap - d) edges n d v) ns))))
    where
      below : ℕ
      below = largest m (map depth_of stack)

      new : ℕ
      new = deepest (cap - d) edges n d v

  push_all-costs :
      (ns : List Text) (d : ℕ) (v : List Text) (stack : List Frame)
      → total (map cost_of (push_all ns d v stack))
        ≡ total (map cost_of stack) + total (map (λ n. frames (cap - d) edges n v) ns)
  unfolding push_all total
  push_all-costs [] d v stack = omega arith
  push_all-costs (n ∷ ns) d v stack =
      omega (arith, push_all-costs ns d v (record { node = n; depth = d; visited = v } ∷ stack))

total-le :
    (f : Text → ℕ) (bound : ℕ) (ns : List Text)
    → ((n : Text) → f n ≤ bound)
    → total (map f ns) ≤ length ns * bound
unfolding total
total-le f bound [] h = omega arith
total-le f bound (n ∷ ns) h = grind (arith, total-le f bound ns h, h n)

mul_mono : (a b r : ℕ) → a ≤ b → a * r ≤ b * r
mul_mono a b r h = grind arith

frames-rounds :
    (left : ℕ) (edges : List Edge) (node : Text) (visited : List Text)
    → frames left edges node visited ≤ rounds left edges
unfolding frames rounds
frames-rounds zero edges node visited = omega arith
frames-rounds (suc left) edges node visited = elim (Bool-cases (contains visited node)) [
  | inl e ↦ rw e (omega arith)
  | inr e ↦ rw e (
      omega (
        arith,
        total-le (λ m. frames left edges m (node ∷ visited)) (rounds left edges)
            (neighbours edges node) (λ m. frames-rounds left edges m (node ∷ visited)),
        mul_mono (length (neighbours edges node)) (length edges) (rounds left edges)
            (neighbours-length edges node),
      ))
]

-- A frame below the cap.
below_cap : (cap depth : ℕ) → leb cap depth ≡ false → cap - depth ≡ suc (cap - suc depth)
below_cap cap depth e = ground (arith, e)

at_cap : (cap depth : ℕ) → leb cap depth ≡ true → cap - depth ≡ 0
at_cap cap depth e = ground (arith, e)

-- One round: a frame is done, and its depth is in the maximum.
module _ (cap : ℕ) (edges : List Edge) (f : Frame) (stack : List Frame) where
  visit-costs :
      suc (total (map (cost_of cap edges) (visit cap edges f stack)))
      ≡ total (map (cost_of cap edges) (f ∷ stack))
  unfolding visit total frames
  visit-costs = elim (Bool-cases (leb cap f.depth)) [
    | inl e ↦ rw (e, at_cap cap f.depth e) (omega arith)
    | inr e ↦ elim (Bool-cases (contains f.visited f.node)) [
      | inl c ↦ rw (e, c, below_cap cap f.depth e) (rw c (omega arith))
      | inr c ↦
          rw (e, c, below_cap cap f.depth e)
            (rw c (
              omega (
                arith,
                push_all-costs cap edges (neighbours edges f.node) (suc f.depth)
                    (f.node ∷ f.visited) stack,
              )))
    ]
  ]

  visit-depths :
      (m : ℕ)
      → largest (larger m f.depth) (map (depth_of cap edges) (visit cap edges f stack))
        ≡ largest m (map (depth_of cap edges) (f ∷ stack))
  unfolding visit largest deepest
  visit-depths m = elim (Bool-cases (leb cap f.depth)) [
    | inl e ↦ rw (e, at_cap cap f.depth e) stopped
    | inr e ↦ elim (Bool-cases (contains f.visited f.node)) [
      | inl c ↦ rw (e, c, below_cap cap f.depth e) (rw c stopped)
      | inr c ↦ rw (e, c, below_cap cap f.depth e) (rw c went)
    ]
  ]
    where
      stopped :
          largest (larger m f.depth) (map (depth_of cap edges) stack)
          ≡ larger (largest m (map (depth_of cap edges) stack)) f.depth
      stopped =
          ap (λ b. largest b (map (depth_of cap edges) stack)) (larger_comm m f.depth)
          ∙ (larger-largest_base m f.depth (map (depth_of cap edges) stack)
              ∙ larger_comm f.depth (largest m (map (depth_of cap edges) stack)))

      went :
          largest (larger m f.depth) (
            map
              (depth_of cap edges)
              (push_all (neighbours edges f.node) (suc f.depth) (f.node ∷ f.visited) stack))
          ≡ larger (largest m (map (depth_of cap edges) stack)) (
              largest f.depth (
                map
                  (λ n. deepest (cap - suc f.depth) edges n (suc f.depth) (f.node ∷ f.visited))
                  (neighbours edges f.node)))
      went =
          push_all-depths cap edges (neighbours edges f.node) (suc f.depth) (f.node ∷ f.visited)
            stack (larger m f.depth)
          ∙ (ap
                (λ b. largest b (
                  map (λ n. deepest (cap - suc f.depth) edges n (suc f.depth) (f.node ∷ f.visited))
                    (neighbours edges f.node)))
                stopped
              ∙ larger-largest_base f.depth (largest m (map (depth_of cap edges) stack)) (
                  map (λ n. deepest (cap - suc f.depth) edges n (suc f.depth) (f.node ∷ f.visited))
                    (neighbours edges f.node)))

-- With fuel for the frames of its stack, the loop ends with the largest of their depths.
depth_loop-largest :
    (fuel cap : ℕ) (edges : List Edge) (stack : List Frame) (m : ℕ)
    → total (map (cost_of cap edges) stack) ≤ fuel
    → depth_loop fuel cap edges stack m ≡ some (largest m (map (depth_of cap edges) stack))
unfolding depth_loop
depth_loop-largest fuel cap edges [] m h = unfold largest in refl
depth_loop-largest zero cap edges (f ∷ stack) m h = elim no_fuel [ ]
  where
    no_fuel : ⊥
    no_fuel = omega (arith, visit-costs cap edges f stack, h)
depth_loop-largest (suc fuel) cap edges (f ∷ stack) m h =
    depth_loop-largest fuel cap edges (visit cap edges f stack) (larger m f.depth)
      (omega (arith, visit-costs cap edges f stack, h))
    ∙ ap some (visit-depths cap edges f stack m)

-- The loop of `longestPath` ends, and with the depth that the recursion over the paths from the
-- start finds: a path goes on until it meets a node again or is as long as the number of nodes.
pub longest_path-deepest :
    (start : Text) (edges : List Edge) (node_count : ℕ)
    → longest_path start edges node_count ≡ some (deepest node_count edges start 0 [])
unfolding longest_path total largest
longest_path-deepest start edges node_count =
    depth_loop-largest (rounds node_count edges) node_count edges
      (record { node = start; depth = 0; visited = [] } ∷ []) 0 enough
    ∙ ap some only
  where
    minus_zero : node_count - 0 ≡ node_count
    minus_zero = omega arith

    enough :
        total
          (map (cost_of node_count edges) (record { node = start; depth = 0; visited = [] } ∷ []))
        ≤ rounds node_count edges
    enough = rw minus_zero (omega (arith, frames-rounds node_count edges start []))

    from_zero : (d : ℕ) → larger 0 d ≡ d
    from_zero d = unfold larger in ground arith

    only :
        largest 0
          (map (depth_of node_count edges) (record { node = start; depth = 0; visited = [] } ∷ []))
        ≡ deepest node_count edges start 0 []
    only = rw minus_zero (from_zero (deepest node_count edges start 0 []))
