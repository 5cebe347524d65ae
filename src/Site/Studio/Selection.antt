-- ===== src/Site/Studio/Selection.antt =====
-- The selection of studio.jsx over the nodes that it lists and draws.
use trace_graph.Base.{
  ℕ, zero, suc, Text, codes, text_eq, text_eq_iff, text_eq_refl, List, [], ◌∷◌, some, any, find,
  get_elem?, find-get_elem?, All, All-find, Option-cases, inl, inr, ◌≡◌, refl, ap, subst,
}
use mathlib.Core.Option
use trace_graph.Site.Explorer.Data.{Edge, Place, edges, node_layout}
use trace_graph.Site.Studio.Data.{StudioNode, studio_nodes}
use trace_graph.Site.Studio.{
  Pick, list_button, canvas_node, name_or, pick, picks, incoming, outgoing, node_props,
  studio_props, incoming_lines, outgoing_lines, Props, condition, builder_text,
}
use trace_graph.Site.Studio.Panel.{node_panel, props_panel}
use trace_graph.Site.Markup.Tree.{texts}

-- The search for the selected name finds a node of that name.
abbrev pub IsKnown : List StudioNode → Text → Type 0
IsKnown nodes active =
    (n : StudioNode) × (find (λ m. text_eq m.name active) nodes ≡ some n) × (n.name ≡ active)

listed :
    (nodes : List StudioNode) (k : ℕ) (n : StudioNode)
    → get_elem? nodes k ≡ some n
    → IsKnown nodes n.name
listed nodes k n e =
    let (m, f, t) = find-get_elem? (λ m. text_eq m.name n.name) nodes k n e (text_eq_refl n.name) in
    (m, f, (text_eq_iff m.name n.name).0 t)

drawn :
    (nodes : List StudioNode) (layout : List Place) (k : ℕ) (p : Place)
    → All (λ q. IsKnown nodes q.name) layout
    → get_elem? layout k ≡ some p
    → IsKnown nodes p.name
drawn nodes [] k p h e = cc
drawn nodes (q ∷ layout) zero p (a, h) e = subst (λ x. IsKnown nodes (Place.name x)) (same e) a
  where
    same : some q ≡ some p → q ≡ p
    same e = cc
drawn nodes (q ∷ layout) (suc k) p (a, h) e = drawn nodes layout k p h e

pub pick-IsKnown :
    (nodes : List StudioNode) (layout : List Place) (active : Text) (p : Pick)
    → All (λ q. IsKnown nodes q.name) layout
    → IsKnown nodes active
    → IsKnown nodes (pick nodes layout active p)
unfolding pick name_or
pick-IsKnown nodes layout active (list_button k) h a = elim (Option-cases (get_elem? nodes k)) [
  | inl e ↦ rw e a
  | inr (n, e) ↦ rw e (listed nodes k n e)
]
pick-IsKnown nodes layout active (canvas_node k) h a = elim (Option-cases (get_elem? layout k)) [
  | inl e ↦ rw e a
  | inr (p, e) ↦ rw e (drawn nodes layout k p h e)
]

picks-IsKnown :
    (nodes : List StudioNode) (layout : List Place) (ps : List Pick) (active : Text)
    → All (λ q. IsKnown nodes q.name) layout
    → IsKnown nodes active
    → IsKnown nodes (picks nodes layout active ps)
unfolding picks
picks-IsKnown nodes layout [] active h a = a
picks-IsKnown nodes layout (p ∷ ps) active h a =
    picks-IsKnown nodes layout ps (pick nodes layout active p) h
      (pick-IsKnown nodes layout active p h a)

-- From a name in the list, after any clicks in the list and on the canvas, the panel shows a node
-- of the selected name: it never reads a node that is missing. Every drawn name must be in the
-- list.
pub picks-studio_props :
    (nodes : List StudioNode) (layout : List Place) (es : List Edge) (ps : List Pick)
    (active : Text)
    → All (λ q. IsKnown nodes q.name) layout
    → IsKnown nodes active
    → (n : StudioNode) × (studio_props nodes es (picks nodes layout active ps)
        ≡ some (node_props es n))
      × (n.name ≡ picks nodes layout active ps)
unfolding studio_props
picks-studio_props nodes layout es ps active h a =
    let (n, f, e) = picks-IsKnown nodes layout ps active h a in
    (n, ap (Option.map (node_props es)) f, e)

pub layout-IsKnown : All (λ q. IsKnown studio_nodes q.name) node_layout
unfolding studio_nodes node_layout text_eq codes
layout-IsKnown = (
  (_, refl, refl),
  ((_, refl, refl), ((_, refl, refl), ((_, refl, refl), ((_, refl, refl), tt)))),
)

pub charge_IsKnown : IsKnown studio_nodes (codes "charge")
unfolding studio_nodes text_eq codes
charge_IsKnown = (_, refl, refl)

abbrev pub no_incoming : Text
no_incoming = codes "(entry — no incoming)"

abbrev pub no_outgoing : Text
no_outgoing = codes "(terminal — no outgoing)"

-- The notes of the panel agree with the fields of its node.
abbrev pub HasNotes : StudioNode → Type 0
HasNotes n =
    (any (text_eq no_incoming) (texts (node_panel n)) ≡ n.entry)
    × (any (text_eq no_outgoing) (texts (node_panel n)) ≡ n.terminal)
    × (any (text_eq no_incoming) (Props.incoming (node_props edges n)) ≡ n.entry)
    × (any (text_eq no_outgoing) (Props.outgoing (node_props edges n)) ≡ n.terminal)

nodes-HasNotes : All HasNotes studio_nodes
unfolding studio_nodes edges node_props incoming outgoing incoming_lines outgoing_lines node_panel
    texts builder_text condition text_eq codes
nodes-HasNotes = (
  (refl, refl, refl, refl),
  (
    (refl, refl, refl, refl),
    ((refl, refl, refl, refl), ((refl, refl, refl, refl), ((refl, refl, refl, refl), tt))),
  ),
)

-- On the graph of the site, whatever is clicked, the studio shows the panel of the node that is
-- selected, and the panel has the note that a node has no incoming edges exactly where the node is
-- the entry, and the one that it has no outgoing edges exactly where it is terminal.
pub studio_panel :
    (ps : List Pick)
    → (n : StudioNode) × (studio_props studio_nodes edges
          (picks studio_nodes node_layout (codes "charge") ps)
        ≡ some (node_props edges n))
      × (props_panel (picks studio_nodes node_layout (codes "charge") ps) ≡ some (node_panel n))
      × (n.name ≡ picks studio_nodes node_layout (codes "charge") ps)
      × HasNotes n
unfolding studio_props props_panel
studio_panel ps =
    let (n, f, e) =
      picks-IsKnown studio_nodes node_layout ps (codes "charge") layout-IsKnown charge_IsKnown in
    (
      n,
      ap (Option.map (node_props edges)) f,
      ap (Option.map node_panel) f,
      e,
      All-find HasNotes (λ m. text_eq m.name (picks studio_nodes node_layout (codes "charge") ps))
          studio_nodes n nodes-HasNotes f,
    )
