-- ===== src/Site/Studio/Tests.antt =====
-- The theorems on the studio, at its own nodes and drawing.
use trace_graph.Base.{codes, List, [], ◌∷◌, some, ◌≡◌}
use trace_graph.Site.Explorer.Data.{edges, node_layout}
use trace_graph.Site.Studio.Data.{StudioNode, studio_nodes}
use trace_graph.Site.Studio.{Pick, list_button, canvas_node, picks, node_props, studio_props}
use trace_graph.Site.Studio.Panel.{node_panel, props_panel}
use trace_graph.Site.Studio.Selection.{HasNotes, studio_panel}

abbrev some_picks : List Pick
some_picks = canvas_node 4 ∷ list_button 0 ∷ list_button 12 ∷ []

studio_panel_example :
    (n : StudioNode) × (studio_props studio_nodes edges
        (picks studio_nodes node_layout (codes "charge") some_picks)
      ≡ some (node_props edges n))
    × (props_panel (picks studio_nodes node_layout (codes "charge") some_picks)
        ≡ some (node_panel n))
    × (n.name ≡ picks studio_nodes node_layout (codes "charge") some_picks)
    × HasNotes n
studio_panel_example = studio_panel some_picks
