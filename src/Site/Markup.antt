-- ===== src/Site/Markup.antt =====
-- The elements that the components of the React site return.
pub mod Tree
use trace_graph.Base.{ℕ, suc, Text, List, [], ◌∷◌, ◌++◌, map, Option, none, some}

-- The elements of HTML and SVG that the site uses.
pub data Tag : Type 0 where
  a_tag article_tag aside_tag br_tag button_tag circle_tag code_tag defs_tag div_tag em_tag : Tag
  footer_tag g_tag h1_tag h2_tag h3_tag h4_tag h5_tag header_tag li_tag line_tag main_tag : Tag
  marker_tag nav_tag option_tag p_tag path_tag pre_tag rect_tag section_tag select_tag : Tag
  span_tag strong_tag svg_tag table_tag tbody_tag td_tag text_tag th_tag thead_tag tr_tag : Tag
  ul_tag : Tag

-- What a click does: it sets a state of the shell, of the explorer or of the studio, shows an
-- alert, or nothing.
pub data Action : Type 0 where
  set_theme : Text → Action
  set_active_idx : ℕ → Action
  set_active_name : Text → Action
  show_alert : Text → Action
  do_nothing : Action

-- The attributes by their JSX names; `style_attr` has its properties in order.
pub data Attr : Type 0 where
  class_name href_attr inner_html : Text → Attr
  style_attr : List (Text × Text) → Attr
  on_click : Action → Attr
  attr : Text → Text → Attr

-- A component is the element that it returns; `keyed` has the `key` of an element in a list.
mutual
  pub data Node : Type 0 where
    txt : Text → Node
    element : Tag → List Attr → Nodes → Node
    keyed : Text → Node → Node

  pub data Nodes : Type 0 where
    no_nodes : Nodes
    with_node : Node → Nodes → Nodes

abbrev pub nodes : List Node → Nodes
nodes [] = no_nodes
nodes (n ∷ ns) = with_node n (nodes ns)

abbrev pub el : Tag → List Attr → List Node → Node
el tag attrs children = element tag attrs (nodes children)

-- `xs.map((x, i) => …)`, from an index on.
abbrev pub map_index {ℓ κ} : {A : Type ℓ} {B : Type κ} → (ℕ → A → B) → ℕ → List A → List B
map_index f i [] = []
map_index f i (x ∷ xs) = f i x ∷ map_index f (suc i) xs

-- `t && …` for a text that may be missing: neither a missing nor an empty one shows anything.
abbrev pub when_text : Option Text → (Text → List Node) → List Node
when_text none f = []
when_text (some []) f = []
when_text (some (c ∷ t)) f = f (c ∷ t)

-- An attribute that is left out where its value is undefined.
abbrev pub optional_attr {ℓ} : {A : Type ℓ} → (A → Attr) → Option A → List Attr
optional_attr f none = []
optional_attr f (some x) = f x ∷ []
