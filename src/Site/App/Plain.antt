-- ===== src/Site/App/Plain.antt =====
-- Parts of the pages that come from values: texts only, with no link and nothing to click.
pub mod Panels
use mathlib.Core.Option
use mathlib.Core.Option.{some-injective}
use trace_graph.Site.Explorer.Data.{
  Step, validate_step, enrich_step, score_step, charge_step, ship_step, steps, edges,
}
use trace_graph.Site.Studio.Data.{studio_nodes}
use trace_graph.Site.Studio.Panel.{node_panel, props_panel}
use trace_graph.Site.Studio.Page.{size_if, counted_size, graph_size}
use trace_graph.Base.{
  get_elem?, zero, suc, text_eq, All-find, find, All, ℕ, Text, codes, List, [], ◌∷◌, ◌++◌, Bool,
  true, false, Option, none, some, ◌≡◌, refl, subst,
}
use trace_graph.Value.{
  Js, undefined, null, bool, num, other_num, str, arr, obj, Items, nil, cons, opt_get, truthy,
}
use trace_graph.Value.Print.{stringify_pretty}
use trace_graph.Spa.Steps.{>>=-eq-some}
use trace_graph.Site.Markup.{Node, txt, element, keyed, nodes, option_tag, span_tag, el}
use trace_graph.Site.Markup.Tree.{
  is_flat, are_flat, links, links_in, actions, actions_in, is_interactive, attr_actions, attr_links,
}
use trace_graph.Site.Explorer.Page.{child, child_items, run_option, run_options}
use trace_graph.Site.Explorer.Runs.{RunView}
use trace_graph.Site.Explorer.Inspect.{inspector_panel, json_child, shown_text}

abbrev pub IsText : Node → Type 0
IsText (txt t) = Unit
IsText (element tag attrs ns) = ⊥
IsText (keyed k n) = ⊥

-- Nothing interactive stands in the nodes.
pub record IsPlain (ns : List Node) : Type 0 where
  pub flat : (inside : Bool) → are_flat inside (nodes ns) ≡ true
  pub no_actions : actions_in (nodes ns) ≡ []
  pub no_links : links_in (nodes ns) ≡ []

pub nil-IsPlain : IsPlain []
unfolding are_flat actions_in links_in
nil-IsPlain = record { flat = λ inside. refl; no_actions = refl; no_links = refl }

pub texts-IsPlain : (ts : List Node) → All IsText ts → IsPlain ts
unfolding are_flat actions_in links_in
texts-IsPlain [] h = nil-IsPlain
texts-IsPlain (txt t ∷ ts) (a, h) =
    let q = texts-IsPlain ts h in
    record { flat = q.flat; no_actions = q.no_actions; no_links = q.no_links }
texts-IsPlain (element tag attrs cs ∷ ts) (a, h) = absurd a
texts-IsPlain (keyed k n ∷ ts) (a, h) = absurd a

pub append-texts : (xs ys : List Node) → All IsText xs → All IsText ys → All IsText (xs ++ ys)
append-texts [] ys h g = g
append-texts (x ∷ xs) ys (a, h) g = (a, append-texts xs ys h g)

-- A value shows as texts.
mutual
  unfolding child child_items

  pub child-texts : (v : Js) (ns : List Node) → child v ≡ some ns → All IsText ns
  child-texts undefined ns e = subst (All IsText) (some-injective _ _ e) tt
  child-texts null ns e = subst (All IsText) (some-injective _ _ e) tt
  child-texts (bool b) ns e = subst (All IsText) (some-injective _ _ e) tt
  child-texts (num n) ns e = subst (All IsText) (some-injective _ _ e) (tt, tt)
  child-texts (other_num t) ns e = subst (All IsText) (some-injective _ _ e) (tt, tt)
  child-texts (str t) ns e = subst (All IsText) (some-injective _ _ e) (tt, tt)
  child-texts (arr vs) ns e = items-texts vs ns e
  child-texts (obj fs) ns e = cc

  items-texts : (vs : Items) (ns : List Node) → child_items vs ≡ some ns → All IsText ns
  items-texts nil ns e = subst (All IsText) (some-injective _ _ e) tt
  items-texts (cons v vs) ns e =
      let (xs, f, g) = >>=-eq-some (child v) _ e in
      let (ys, h, i) = >>=-eq-some (child_items vs) _ g in
      subst (All IsText) (some-injective _ _ i)
        (append-texts xs ys (child-texts v xs f) (items-texts vs ys h))

option-IsPlain :
    (key : Text) (ts ns : List Node)
    → IsPlain ts
    → IsPlain ns
    → IsPlain (keyed key (el option_tag [] ts) ∷ ns)
unfolding are_flat actions_in links_in is_interactive attr_actions attr_links
option-IsPlain key ts ns p q = record {
  flat = λ inside. rw (p.flat inside, q.flat inside) refl;
  no_actions = rw (p.no_actions, q.no_actions) refl;
  no_links = rw (p.no_links, q.no_links) refl;
}

run_option-texts :
    (r : RunView) (o : Node)
    → run_option r ≡ some o
    → (key : Text) × (ts : List Node) × (keyed key (el option_tag [] ts) ≡ o) × All IsText ts
unfolding run_option
run_option-texts r o e =
    let (id, f, e1) = >>=-eq-some (child r.id) _ e in
    let (graph, g, e2) = >>=-eq-some (child r.graph) _ e1 in
    let (status, h, e3) = >>=-eq-some (child r.status) _ e2 in
    (
      _,
      _,
      some-injective _ _ e3,
      append-texts id _ (child-texts r.id id f) (
        tt,
        append-texts graph _ (child-texts r.graph graph g) (tt, child-texts r.status status h),
      ),
    )

-- The options of the list of runs.
pub run_options-IsPlain :
    (runs : List RunView) (options : List Node) → run_options runs ≡ some options → IsPlain options
unfolding run_options
run_options-IsPlain [] options e = subst IsPlain (some-injective _ _ e) nil-IsPlain
run_options-IsPlain (r ∷ runs) options e =
    let (o, f, g) = >>=-eq-some (run_option r) _ e in
    let (os, h, i) = >>=-eq-some (run_options runs) _ g in
    let (key, ts, same, texts) = run_option-texts r o f in
    subst IsPlain (some-injective _ _ i) (
      subst (λ n. IsPlain (n ∷ os)) same
        (option-IsPlain key ts os (texts-IsPlain ts texts) (run_options-IsPlain runs os h)))
