-- ===== src/Complexity/Walks.antt =====
-- The depth of `longestPath` against the walks in the graph.
use trace_graph.Base.{
  ℕ, zero, suc, ◌+◌, ◌≤◌, Text, List, [], ◌∷◌, ◌++◌, false, some, map, ◌≡◌, refl, arith, Bool-cases,
  inl, inr, ◌⊎◌, ap, ◌∙◌,
}
use trace_graph.Complexity.{Edge, neighbours, contains, larger, longest_path}
use trace_graph.Complexity.Depth.{largest, deepest, longest_path-deepest}

-- A walk from a node along edges, of some length, that leaves no node twice and none that is
-- visited: it may end in a node that it has left.
pub data Trail (edges : List Edge) : List Text → Text → ℕ → Type 0 where
  stop : {visited : List Text} {node : Text} → Trail edges visited node 0
  move :
      {visited : List Text} {node : Text} {n : ℕ} (before : List Text) (next : Text)
      (after : List Text)
      → contains visited node ≡ false
      → neighbours edges node ≡ before ++ (next ∷ after)
      → Trail edges (node ∷ visited) next n
      → Trail edges visited node (suc n)

larger-left : (a b : ℕ) → a ≤ larger a b
unfolding larger
larger-left a b = ground arith

larger-right : (a b : ℕ) → b ≤ larger a b
unfolding larger
larger-right a b = ground arith

larger-cases : (a b : ℕ) → (larger a b ≡ a) ⊎ (larger a b ≡ b)
unfolding larger
larger-cases a b = ground arith

largest-base : (base : ℕ) (xs : List ℕ) → base ≤ largest base xs
unfolding largest
largest-base base [] = omega arith
largest-base base (x ∷ xs) = omega (arith, largest-base base xs, larger-left (largest base xs) x)

largest-member :
    (f : Text → ℕ) (base : ℕ) (before : List Text) (n : Text) (after : List Text)
    → f n ≤ largest base (map f (before ++ (n ∷ after)))
unfolding largest
largest-member f base [] n after = larger-right (largest base (map f after)) (f n)
largest-member f base (b ∷ before) n after = omega (
  arith,
  largest-member f base before n after,
  larger-left (largest base (map f (before ++ (n ∷ after)))) (f b),
)

-- A maximum is one of the numbers.
unfoldable Attained : (Text → ℕ) → ℕ → List Text → Type 0
Attained f base ns =
    (largest base (map f ns) ≡ base)
    ⊎ ((before : List Text) × (n : Text) × (after : List Text) × (ns ≡ before ++ (n ∷ after))
        × (largest base (map f ns) ≡ f n))

largest-Attained : (f : Text → ℕ) (base : ℕ) (ns : List Text) → Attained f base ns
unfolding largest Attained
largest-Attained f base [] = inl refl
largest-Attained f base (n ∷ ns) = elim (larger-cases (largest base (map f ns)) (f n)) [
  | inr e ↦ inr ([], n, ns, refl, e)
  | inl e ↦ elim (largest-Attained f base ns) [
    | inl b ↦ inl (e ∙ b)
    | inr (before, m, after, split, at) ↦ inr (n ∷ before, m, after, ap (λ l. n ∷ l) split, e ∙ at)
  ]
]

deepest-base :
    (left : ℕ) (edges : List Edge) (node : Text) (depth : ℕ) (visited : List Text)
    → depth ≤ deepest left edges node depth visited
unfolding deepest
deepest-base zero edges node depth visited = omega arith
deepest-base (suc left) edges node depth visited = elim (Bool-cases (contains visited node)) [
  | inl e ↦ rw e (omega arith)
  | inr e ↦ rw e (
      largest-base depth
        (map (λ m. deepest left edges m (suc depth) (node ∷ visited)) (neighbours edges node)))
]

deepest-next :
    (left : ℕ) (edges : List Edge) (node : Text) (depth : ℕ) (visited : List Text)
    (before : List Text) (next : Text) (after : List Text)
    → contains visited node ≡ false
    → neighbours edges node ≡ before ++ (next ∷ after)
    → deepest left edges next (suc depth) (node ∷ visited)
      ≤ deepest (suc left) edges node depth visited
unfolding deepest
deepest-next left edges node depth visited before next after e split =
    rw (e, split)
      (largest-member (λ m. deepest left edges m (suc depth) (node ∷ visited)) depth before next
        after)

-- No trail is longer than the depth.
Trail-deepest :
    {edges : List Edge} {visited : List Text} {node : Text} {n : ℕ}
    → Trail edges visited node n
    → (left depth : ℕ) → n ≤ left
    → depth + n ≤ deepest left edges node depth visited
Trail-deepest {edges} {visited} {node} stop left depth h =
    omega (arith, deepest-base left edges node depth visited)
Trail-deepest (move before next after e split t) zero depth h = omega (arith, h)
Trail-deepest {edges} {visited} {node} (move before next after e split t) (suc left) depth h =
    omega (
      arith,
      Trail-deepest t left (suc depth) (omega (arith, h)),
      deepest-next left edges node depth visited before next after e split,
    )

-- The depth is that of a trail.
deepest-Trail :
    (left : ℕ) (edges : List Edge) (node : Text) (depth : ℕ) (visited : List Text)
    → (n : ℕ) × (deepest left edges node depth visited ≡ depth + n)
      × (n ≤ left)
      × Trail edges visited node n
unfolding deepest Attained
deepest-Trail zero edges node depth visited = (0, omega arith, omega arith, stop)
deepest-Trail (suc left) edges node depth visited = elim (Bool-cases (contains visited node)) [
  | inl e ↦ (0, rw e (omega arith), omega arith, stop)
  | inr e ↦
      elim (largest-Attained (λ m. deepest left edges m (suc depth) (node ∷ visited)) depth
        (neighbours edges node)) [
          | inl b ↦ (0, rw e (omega (arith, b)), omega arith, stop)
          | inr (before, m, after, split, at) ↦
              (let (k, d, l, t) = deepest-Trail left edges m (suc depth) (node ∷ visited) in
                (
                  suc k,
                  rw e (omega (arith, at, d)),
                  omega (arith, l),
                  move before m after e split t,
                ))
        ]
]

-- Whatever trail from the start there is, of at most as many edges as there are nodes, the loop
-- ends with the length of a trail of that kind that is at least as long.
pub longest_path-longest :
    (start : Text) (edges : List Edge) (node_count n : ℕ)
    → Trail edges [] start n
    → n ≤ node_count
    → (k : ℕ) × (longest_path start edges node_count ≡ some k)
      × (k ≤ node_count)
      × (n ≤ k)
      × Trail edges [] start k
longest_path-longest start edges node_count n t h =
    let (k, d, l, longest) = deepest-Trail node_count edges start 0 [] in
    (
      k,
      longest_path-deepest start edges node_count ∙ ap some (omega (arith, d)),
      l,
      omega (arith, d, Trail-deepest t node_count 0 h),
      longest,
    )
