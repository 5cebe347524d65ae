-- ===== src/Site/Markup/Tree.antt =====
-- What a tree of elements has: the links and the actions, and where interactive elements
-- stand in each other.
use trace_graph.Base.{Text, List, [], ◌∷◌, ◌++◌, Bool, true, false, ◌&&◌, not}
use trace_graph.Site.Markup.{
  Tag, a_tag, button_tag, select_tag, Action, Attr, class_name, href_attr, inner_html, style_attr,
  on_click, attr, Node, txt, element, keyed, Nodes, no_nodes, with_node,
}

-- The elements that HTML calls interactive, of those that the site uses.
unfoldable pub is_interactive : Tag → Bool
is_interactive a_tag = true
is_interactive button_tag = true
is_interactive select_tag = true
is_interactive _ = false

-- No interactive element stands in another one; `inside` tells whether the node stands in one.
unfoldable mutual
  pub is_flat : Bool → Node → Bool
  is_flat inside (txt t) = true
  is_flat inside (keyed k n) = is_flat inside n
  is_flat inside (element tag attrs ns) = elim (is_interactive tag) [
    | true ↦ not inside && are_flat true ns
    | false ↦ are_flat inside ns
  ]

  pub are_flat : Bool → Nodes → Bool
  are_flat inside no_nodes = true
  are_flat inside (with_node n ns) = is_flat inside n && are_flat inside ns

unfoldable pub attr_links : List Attr → List Text
attr_links [] = []
attr_links (href_attr t ∷ rest) = t ∷ attr_links rest
attr_links (class_name t ∷ rest) = attr_links rest
attr_links (inner_html t ∷ rest) = attr_links rest
attr_links (style_attr ps ∷ rest) = attr_links rest
attr_links (on_click a ∷ rest) = attr_links rest
attr_links (attr k v ∷ rest) = attr_links rest

-- The addresses of the links of a tree, in order.
unfoldable mutual
  pub links : Node → List Text
  links (txt t) = []
  links (keyed k n) = links n
  links (element tag attrs ns) = attr_links attrs ++ links_in ns

  pub links_in : Nodes → List Text
  links_in no_nodes = []
  links_in (with_node n ns) = links n ++ links_in ns

unfoldable pub attr_actions : List Attr → List Action
attr_actions [] = []
attr_actions (on_click a ∷ rest) = a ∷ attr_actions rest
attr_actions (class_name t ∷ rest) = attr_actions rest
attr_actions (inner_html t ∷ rest) = attr_actions rest
attr_actions (style_attr ps ∷ rest) = attr_actions rest
attr_actions (href_attr t ∷ rest) = attr_actions rest
attr_actions (attr k v ∷ rest) = attr_actions rest

-- What the clicks on the elements of a tree do, in order.
unfoldable mutual
  pub actions : Node → List Action
  actions (txt t) = []
  actions (keyed k n) = actions n
  actions (element tag attrs ns) = attr_actions attrs ++ actions_in ns

  pub actions_in : Nodes → List Action
  actions_in no_nodes = []
  actions_in (with_node n ns) = actions n ++ actions_in ns

-- The texts of a tree, in order.
unfoldable mutual
  pub texts : Node → List Text
  texts (txt t) = t ∷ []
  texts (keyed k n) = texts n
  texts (element tag attrs ns) = texts_in ns

  pub texts_in : Nodes → List Text
  texts_in no_nodes = []
  texts_in (with_node n ns) = texts n ++ texts_in ns
