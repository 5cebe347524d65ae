-- ===== src/Site/App/Plain/Panels.antt =====
-- Panels of the pages with no link and nothing to click.
use trace_graph.Site.App.Plain.{IsText, texts-IsPlain, append-texts, child-texts}
use mathlib.Core.Option
use mathlib.Core.Option.{some-injective}
use trace_graph.Site.Explorer.Data.{
  Step, validate_step, enrich_step, score_step, charge_step, ship_step, steps, edges,
}
use trace_graph.Site.Studio.Data.{studio_nodes}
use trace_graph.Site.Studio.Panel.{node_panel, props_panel}
use trace_graph.Site.Studio.Page.{size_if, counted_size, graph_size}
use trace_graph.Base.{
  get_elem?, zero, suc, text_eq, All-find, find, All, ℕ, Text, codes, List, [], ◌∷◌, ◌++◌, Bool,
  true, false, Option, none, some, ◌≡◌, refl, subst,
}
use trace_graph.Value.{Js, opt_get, truthy}
use trace_graph.Value.Print.{stringify_pretty}
use trace_graph.Spa.Steps.{>>=-eq-some}
use trace_graph.Site.Markup.{Node, txt, span_tag, el}
use trace_graph.Site.Markup.Tree.{is_flat, links, actions, is_interactive, attr_actions, attr_links}
use trace_graph.Site.Explorer.Page.{child}
use trace_graph.Site.Explorer.Inspect.{inspector_panel, json_child}

-- Nothing to click stands in the node, and no interactive element in another one.
pub record IsQuiet (n : Node) : Type 0 where
  pub flat : is_flat false n ≡ true
  pub no_actions : actions n ≡ []
  pub no_links : links n ≡ []

steps-IsQuiet : All (λ s. IsQuiet (inspector_panel s)) steps
unfolding steps validate_step enrich_step score_step charge_step ship_step inspector_panel is_flat
    actions links json_child is_interactive stringify_pretty truthy attr_actions attr_links codes
steps-IsQuiet = (
  record { flat = refl; no_actions = refl; no_links = refl },
  (
    record { flat = refl; no_actions = refl; no_links = refl },
    (
      record { flat = refl; no_actions = refl; no_links = refl },
      (
        record { flat = refl; no_actions = refl; no_links = refl },
        (record { flat = refl; no_actions = refl; no_links = refl }, tt),
      ),
    ),
  ),
)

All-get_elem? {ℓ κ} :
    {A : Type ℓ} (P : A → Type κ) (xs : List A) (k : ℕ) (x : A)
    → All P xs
    → get_elem? xs k ≡ some x
    → P x
All-get_elem? P [] k x h e = cc
All-get_elem? P (y ∷ xs) zero x (a, h) e = subst P (some-injective _ _ e) a
All-get_elem? P (y ∷ xs) (suc k) x (a, h) e = All-get_elem? P xs k x h e

-- The panel of a step that is open.
pub inspector_panel-IsQuiet :
    (active : ℕ) (s : Step) → get_elem? steps active ≡ some s → IsQuiet (inspector_panel s)
inspector_panel-IsQuiet active s e = All-get_elem? _ steps active s steps-IsQuiet e

nodes-IsQuiet : All (λ n. IsQuiet (node_panel n)) studio_nodes
unfolding studio_nodes node_panel is_flat actions links edges text_eq codes is_interactive
    attr_actions attr_links
nodes-IsQuiet = (
  record { flat = refl; no_actions = refl; no_links = refl },
  (
    record { flat = refl; no_actions = refl; no_links = refl },
    (
      record { flat = refl; no_actions = refl; no_links = refl },
      (
        record { flat = refl; no_actions = refl; no_links = refl },
        (record { flat = refl; no_actions = refl; no_links = refl }, tt),
      ),
    ),
  ),
)

map-eq-some {ℓ κ} :
    {A : Type ℓ} {B : Type κ} (f : A → B) (o : Option A) (b : B)
    → Option.map f o ≡ some b
    → (a : A) × (o ≡ some a) × (f a ≡ b)
map-eq-some f none b e = cc
map-eq-some f (some a) b e = (a, refl, some-injective _ _ e)

-- The panel of a node that is selected.
pub props_panel-IsQuiet : (active : Text) (n : Node) → props_panel active ≡ some n → IsQuiet n
unfolding props_panel
props_panel-IsQuiet active n e =
    let (m, f, g) = map-eq-some node_panel (find (λ n. text_eq n.name active) studio_nodes) n e in
    subst IsQuiet g (
      All-find (λ n. IsQuiet (node_panel n)) (λ n. text_eq n.name active) studio_nodes m
        nodes-IsQuiet f)

span-IsQuiet : (ts : List Node) → All IsText ts → IsQuiet (el span_tag [] ts)
unfolding is_flat actions links is_interactive attr_actions attr_links
span-IsQuiet ts h =
    let p = texts-IsPlain ts h in
    record { flat = p.flat false; no_actions = p.no_actions; no_links = p.no_links }

size_if-IsQuiet :
    (b : Bool) (complexity : Js) (n : Node) → size_if b complexity ≡ some n → IsQuiet n
unfolding size_if counted_size
size_if-IsQuiet false complexity n e =
    subst IsQuiet (some-injective _ _ e) (span-IsQuiet (txt _ ∷ []) (tt, tt))
size_if-IsQuiet true complexity n e =
    let (xs, f, e1) = >>=-eq-some (child (opt_get (codes "nodeCount") complexity)) _ e in
    let (ys, g, e2) = >>=-eq-some (child (opt_get (codes "edgeCount") complexity)) _ e1 in
    let (zs, h, e3) = >>=-eq-some (child (opt_get (codes "maxDepth") complexity)) _ e2 in
    subst IsQuiet (some-injective _ _ e3) (
      span-IsQuiet (xs ++ (nodes_text ∷ (ys ++ (edges_text ∷ zs)))) (
        append-texts xs (nodes_text ∷ (ys ++ (edges_text ∷ zs)))
          (child-texts (opt_get (codes "nodeCount") complexity) xs f)
          (
            tt,
            append-texts ys (edges_text ∷ zs)
                (child-texts (opt_get (codes "edgeCount") complexity) ys g)
                (tt, child-texts (opt_get (codes "maxDepth") complexity) zs h),
          )))
  where
    nodes_text : Node
    nodes_text = txt (codes " nodes · ")

    edges_text : Node
    edges_text = txt (codes " edges · depth ")

-- The size of the graph in the bar of the studio.
pub graph_size-IsQuiet : (complexity : Js) (n : Node) → graph_size complexity ≡ some n → IsQuiet n
unfolding graph_size
graph_size-IsQuiet complexity n e = size_if-IsQuiet (truthy complexity) complexity n e
