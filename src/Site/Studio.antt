-- ===== src/Site/Studio.antt =====
-- studio.jsx: the selected node and what the panel shows of it.
pub mod Data
pub mod Page
pub mod Panel
pub mod Canvas
pub mod Selection
mod Tests
use trace_graph.Base.{
  ℕ, get_elem?, Text, codes, text_eq, if◌then◌else◌, List, [], ◌∷◌, ◌++◌, Bool, true, false, Option,
  none, some, map, find, filter, not,
}
use mathlib.Core.Option
use trace_graph.Site.Explorer.Data.{Edge, Place}
use trace_graph.Site.Studio.Data.{StudioNode}

-- A click on the button in some position of the list, or on a node of the canvas.
pub data Pick : Type 0 where
  list_button : ℕ → Pick
  canvas_node : ℕ → Pick

-- The name to select, where there is one.
unfoldable pub name_or : Text → Option Text → Text
name_or active none = active
name_or active (some name) = name

unfoldable pub pick : List StudioNode → List Place → Text → Pick → Text
unfolding name_or
pick nodes layout active (list_button k) =
    name_or active (Option.map StudioNode.name (get_elem? nodes k))
pick nodes layout active (canvas_node k) =
    name_or active (Option.map Place.name (get_elem? layout k))

-- The `active` name after the clicks.
unfoldable pub picks : List StudioNode → List Place → Text → List Pick → Text
unfolding pick
picks nodes layout active [] = active
picks nodes layout active (p ∷ ps) = picks nodes layout (pick nodes layout active p) ps

-- The icon of a node in the list.
unfoldable pub node_icon : Text → Text
node_icon kind =
    if text_eq kind (codes "parallel")
    then codes "split"
    else if text_eq kind (codes "async")
    then codes "zap"
    else codes "circle"

-- The badges of a node in the list, by their texts.
unfoldable pub node_badges : StudioNode → List Text
node_badges n =
    (if n.entry then codes "entry" ∷ [] else [])
    ++ ((if n.terminal then codes "terminal" ∷ [] else []) ++ (n.kind ∷ []))

-- `e.label ? ' if ('+e.label+')' : ''`
unfoldable pub condition : Option Text → Text
condition none = []
condition (some []) = []
condition (some (c ∷ label)) = codes " if (" ++ ((c ∷ label) ++ codes ")")

unfoldable pub incoming : List Edge → StudioNode → List Edge
incoming edges n = filter (λ e. text_eq e.to n.name) edges

unfoldable pub outgoing : List Edge → StudioNode → List Edge
outgoing edges n = filter (λ e. text_eq e.from n.name) edges

-- The lines of the two lists, or the note for an empty one.
unfoldable pub incoming_lines : List Edge → List Text
unfolding condition
incoming_lines [] = codes "(entry — no incoming)" ∷ []
incoming_lines (e ∷ es) = map (λ d. codes "← " ++ (d.from ++ condition d.label)) (e ∷ es)

unfoldable pub outgoing_lines : List Edge → List Text
unfolding condition
outgoing_lines [] = codes "(terminal — no outgoing)" ∷ []
outgoing_lines (e ∷ es) = map (λ d. codes "→ " ++ (d.to ++ condition d.label)) (e ∷ es)

unfoldable pub builder_method : Text → Text
builder_method kind =
    if text_eq kind (codes "parallel")
    then codes "parallel"
    else if text_eq kind (codes "async")
    then codes "asyncNode"
    else codes "node"

-- The builder call that the panel shows.
unfoldable pub builder_text : StudioNode → Text
unfolding builder_method
builder_text n =
    codes "."
    ++ (builder_method n.kind
        ++ (codes "(\""
            ++ (n.name
                ++ (codes "\", "
                    ++ ((if text_eq n.fn (codes "List.of(profile, fraud, inv)")
                          then codes "List.of(...)"
                          else n.fn)
                        ++ ((if text_eq n.retry (codes "—")
                              then []
                              else codes ",\n    RetryPolicy.exponential(...)")
                            ++ codes ")"))))))

pub record Props : Type 0 where
  pub fields : List (Text × Text)
  pub incoming : List Text
  pub outgoing : List Text
  pub builder : Text

unfoldable pub yes_no : Bool → Text
yes_no b = if b then codes "true" else codes "false"

unfoldable pub node_props : List Edge → StudioNode → Props
unfolding incoming outgoing incoming_lines outgoing_lines builder_text yes_no
node_props edges n = record {
  fields =
      (codes "name", n.name)
      ∷ (codes "kind", n.kind)
      ∷ (codes "function", n.fn)
      ∷ (codes "retry", n.retry)
      ∷ (codes "entry", yes_no n.entry)
      ∷ (codes "terminal", yes_no n.terminal)
      ∷ [];
  incoming = incoming_lines (incoming edges n);
  outgoing = outgoing_lines (outgoing edges n);
  builder = builder_text n;
}

-- `StudioProps`; `none` is the TypeError on `undefined.name`.
unfoldable pub studio_props : List StudioNode → List Edge → Text → Option Props
unfolding node_props
studio_props nodes edges active =
    Option.map (node_props edges) (find (λ n. text_eq n.name active) nodes)

-- A node of the canvas: its fill, its stroke and its width in tenths.
pub record CanvasStyle : Type 0 where
  pub fill : Text
  pub stroke : Text
  pub width : ℕ

unfoldable pub canvas_style : Text → Text → CanvasStyle
canvas_style active name =
    if text_eq name active
    then record { fill = codes "rgba(13,143,99,0.10)"; stroke = codes "#0d8f63"; width = 22 }
    else record { fill = codes "white"; stroke = codes "currentColor"; width = 14 }
