-- ===== src/Site/Explorer/Selection.antt =====
-- The selection of trace.jsx over a sequence of clicks.
use trace_graph.Base.{
  ℕ, zero, suc, ◌+◌, ◌≤◌, ◌<◌, Text, codes, text_eq, text_eq_iff, ◌==◌, if◌then◌else◌, List, [],
  ◌∷◌, Bool, true, false, Option, none, some, find, get_elem?, get_elem?-bound, length, ◌≡◌, refl,
  sym, subst, ap, ◌∙◌, arith, Bool-cases, Option-cases, inl, inr, ◌↔◌, ◌⊎◌,
}
use mathlib.Core.Option
use trace_graph.Site.Explorer.Data.{Step, Edge}
use trace_graph.Site.Explorer.{
  step_for, Click, step_button, graph_node, timeline_button, index_of, click, clicks, StepButton,
  step_buttons, inspect, inspector,
}
use trace_graph.Site.Explorer.Graph.{stroke_between, edge_stroke}

-- Each step stands in the position that its `i` names, counted from a first number.
abbrev pub IsIndexed : ℕ → List Step → Type 0
IsIndexed n [] = Unit
IsIndexed n (s ∷ steps) = (s.i ≡ n) × IsIndexed (suc n) steps

get_elem?-IsIndexed :
    (n k : ℕ) (steps : List Step) (s : Step)
    → IsIndexed n steps
    → get_elem? steps k ≡ some s
    → s.i ≡ n + k
get_elem?-IsIndexed n k [] s h e = cc
get_elem?-IsIndexed n zero (x ∷ steps) s (p, h) e = ground (arith, p, e)
get_elem?-IsIndexed n (suc k) (x ∷ steps) s (p, h) e =
    omega (arith, get_elem?-IsIndexed (suc n) k steps s h e)

find-IsIndexed :
    (p : Step → Bool) (n : ℕ) (steps : List Step) (s : Step)
    → IsIndexed n steps
    → find p steps ≡ some s
    → (k : ℕ) × (s.i ≡ n + k) × (get_elem? steps k ≡ some s) × (p s ≡ true)
find-IsIndexed p n [] s h e = cc
find-IsIndexed p n (x ∷ steps) s (q, h) e = elim (Bool-cases (p x)) [
  | inl t ↦
      let same : x ≡ s = found t e in
      (0, omega (arith, ap Step.i (sym same), q), ap some same, ap p (sym same) ∙ t)
  | inr f ↦
      let (k, i, g, r) = find-IsIndexed p (suc n) steps s h (later f e) in
      (suc k, omega (arith, i), g, r)
]
  where
    found : p x ≡ true → find p (x ∷ steps) ≡ some s → x ≡ s
    found t e = cc (t, e)

    later : p x ≡ false → find p (x ∷ steps) ≡ some s → find p steps ≡ some s
    later f e = ground (arith, f, e)

-- A step is open: the index is in range, and the step there carries it.
abbrev pub IsShown : List Step → ℕ → Type 0
IsShown steps active = (s : Step) × (get_elem? steps active ≡ some s) × (s.i ≡ active)

click_at :
    (steps : List Step) (active : ℕ) (o : Option Step)
    → IsShown steps active
    → ((s : Step) → o ≡ some s → get_elem? steps s.i ≡ some s)
    → IsShown steps (index_of active o)
unfolding index_of
click_at steps active none h f = h
click_at steps active (some s) h f = (s, f s refl, refl)

position :
    (steps : List Step) (k : ℕ) (s : Step)
    → IsIndexed 0 steps
    → get_elem? steps k ≡ some s
    → get_elem? steps s.i ≡ some s
position steps k s h e =
    subst (λ i. get_elem? steps i ≡ some s) (sym (at_k (get_elem?-IsIndexed 0 k steps s h e))) e
  where
    at_k : s.i ≡ 0 + k → s.i ≡ k
    at_k e = omega arith

step_for-position :
    (steps : List Step) (name : Text) (s : Step)
    → IsIndexed 0 steps
    → step_for steps name ≡ some s
    → (get_elem? steps s.i ≡ some s) × (s.name ≡ name)
unfolding step_for
step_for-position steps name s h e =
    let (k, i, g, r) = find-IsIndexed (λ t. text_eq t.name name) 0 steps s h e in
    (position steps k s h g, (text_eq_iff s.name name).0 r)

pub click-IsShown :
    (steps : List Step) (active : ℕ) (c : Click)
    → IsIndexed 0 steps
    → IsShown steps active
    → IsShown steps (click steps active c)
unfolding click
click-IsShown steps active (step_button k) h a =
    click_at steps active _ a (λ s e. position steps k s h e)
click-IsShown steps active (graph_node name) h a =
    click_at steps active _ a (λ s e. (step_for-position steps name s h e).0)
click-IsShown steps active (timeline_button k) h a =
    click_at steps active _ a (λ s e. position steps k s h e)

clicks-from :
    (steps : List Step) (cs : List Click) (active : ℕ)
    → IsIndexed 0 steps
    → IsShown steps active
    → IsShown steps (clicks steps active cs)
unfolding clicks
clicks-from steps [] active h a = a
clicks-from steps (c ∷ cs) active h a =
    clicks-from steps cs (click steps active c) h (click-IsShown steps active c h a)

inspector-shown :
    (steps : List Step) (active : ℕ) (s : Step)
    → get_elem? steps active ≡ some s
    → inspector steps active ≡ some (inspect s)
unfolding inspector
inspector-shown steps active s e = ap (Option.map inspect) e

-- From the first step, after any clicks in the step list, the graph and the timeline, the active
-- index is that of a step which carries it, and the inspector shows that step: it never reads a
-- step that is missing. The steps must carry their positions, and there must be one.
pub clicks-inspector :
    (first : Step) (rest : List Step) (cs : List Click)
    → IsIndexed 0 (first ∷ rest)
    → (s : Step) × (get_elem? (first ∷ rest) (clicks (first ∷ rest) 0 cs) ≡ some s)
      × (s.i ≡ clicks (first ∷ rest) 0 cs)
      × (inspector (first ∷ rest) (clicks (first ∷ rest) 0 cs) ≡ some (inspect s))
clicks-inspector first rest cs h =
    let (s, g, i) = clicks-from (first ∷ rest) cs 0 h (first, refl, h.0) in
    (s, g, i, inspector-shown (first ∷ rest) _ s g)

-- A click on a node of the graph whose name is that of a step opens that step; a click on any
-- other node changes nothing.
click-graph_node :
    (steps : List Step) (active : ℕ) (name : Text)
    → IsIndexed 0 steps
    → ((step_for steps name ≡ none) × (click steps active (graph_node name) ≡ active))
      ⊎ ((s : Step) × (get_elem? steps (click steps active (graph_node name)) ≡ some s)
          × (s.name ≡ name))
unfolding click index_of
click-graph_node steps active name h = elim (Option-cases (step_for steps name)) [
  | inl e ↦ inl (e, rw e refl)
  | inr (s, e) ↦
      inr (s, rw e (step_for-position steps name s h e).0, (step_for-position steps name s h e).1)
]

-- How many rows of the step list are marked.
abbrev pub marked_rows : List StepButton → ℕ
marked_rows [] = 0
marked_rows (b ∷ bs) = (if b.marked then 1 else 0) + marked_rows bs

marked_none :
    (n active : ℕ) (steps : List Step)
    → IsIndexed n steps
    → active < n
    → marked_rows (step_buttons active steps) ≡ 0
unfolding step_buttons
marked_none n active [] h l = refl
marked_none n active (s ∷ steps) (p, h) l =
    ground (arith, p, marked_none (suc n) active steps h (omega arith))

marked_one :
    (n active : ℕ) (steps : List Step)
    → IsIndexed n steps
    → n ≤ active
    → active < n + length steps
    → marked_rows (step_buttons active steps) ≡ 1
unfolding step_buttons
marked_one n active [] h l r = absurd (omega arith)
marked_one n active (s ∷ steps) (p, h) l r = elim (Bool-cases (active == s.i)) [
  | inl t ↦ rw t (omega (arith, marked_none (suc n) active steps h (below t)))
  | inr f ↦ rw f (omega (arith, marked_one (suc n) active steps h (above f) (omega arith)))
]
  where
    below : (active == s.i) ≡ true → active < suc n
    below t = ground (arith, p, t)

    above : (active == s.i) ≡ false → suc n ≤ active
    above f = ground (arith, p, l, f)

-- From the first step, after any clicks, exactly one row of the step list is marked. The steps
-- must carry their positions, and there must be one.
pub clicks-marked_one :
    (first : Step) (rest : List Step) (cs : List Click)
    → IsIndexed 0 (first ∷ rest)
    → marked_rows (step_buttons (clicks (first ∷ rest) 0 cs) (first ∷ rest)) ≡ 1
clicks-marked_one first rest cs h =
    let (s, g, i) = clicks-from (first ∷ rest) cs 0 h (first, refl, h.0) in
    marked_one 0 (clicks (first ∷ rest) 0 cs) (first ∷ rest) h (omega arith)
      (omega (arith, get_elem?-bound (first ∷ rest) _ s g))

failed_if :
    (a b : Text)
    → ((if text_eq a (codes "err")
          then codes "#e11d48"
          else if text_eq b (codes "err")
          then codes "#e11d48"
          else codes "#0d8f63")
        ≡ codes "#e11d48")
      ↔ ((a ≡ codes "err") ⊎ (b ≡ codes "err"))
unfolding codes
failed_if a b = ground (arith, text_eq_iff a (codes "err"), text_eq_iff b (codes "err"))

stroke_between-red :
    (o q : Option Step)
    → (stroke_between o q ≡ codes "#e11d48") ↔ (
        (f : Step) × (t : Step) × (o ≡ some f)
        × (q ≡ some t)
        × ((f.status ≡ codes "err") ⊎ (t.status ≡ codes "err")))
unfolding stroke_between codes
stroke_between-red none q = (λ e. cc, λ (f, t, a, b, c). cc)
stroke_between-red (some f) none = (λ e. cc, λ (f, t, a, b, c). cc)
stroke_between-red (some f) (some t) = (
  λ e. (f, t, refl, refl, (failed_if f.status t.status).0 e),
  λ (x, y, a, b, c). (failed_if f.status t.status).1 (elim c [
    | inl e ↦ inl (ap Step.status (some_inj a) ∙ e)
    | inr e ↦ inr (ap Step.status (some_inj b) ∙ e)
  ]),
)
  where
    some_inj : {A : Type 0} {a b : A} → some a ≡ some b → a ≡ b
    some_inj e = cc

-- The stroke of an edge is red exactly where both its ends have a step and one of them failed.
pub edge_stroke-red :
    (steps : List Step) (e : Edge)
    → (edge_stroke steps e ≡ codes "#e11d48") ↔ (
        (f : Step) × (t : Step) × (step_for steps e.from ≡ some f)
        × (step_for steps e.to ≡ some t)
        × ((f.status ≡ codes "err") ⊎ (t.status ≡ codes "err")))
edge_stroke-red steps e =
    unfold edge_stroke in stroke_between-red (step_for steps e.from) (step_for steps e.to)
