-- ===== src/Site/Explorer/Data/Drawing.antt =====
-- `TRACE_LIST`, `NODE_LAYOUT` and `EDGES` of data.jsx: the sample of the run list, and the graph.
use trace_graph.Base.{ℕ, Text, codes, List, [], ◌∷◌, Option, none, some}

-- An entry of the list of runs.
pub record Run : Type 0 where
  pub id : Text
  pub graph : Text
  pub status : Text

unfoldable pub trace_list : List Run
trace_list =
    record { id = codes "e9c4f1a2"; graph = codes "order-pipeline"; status = codes "FAILED" }
    ∷ record { id = codes "3a82d019"; graph = codes "order-pipeline"; status = codes "COMPLETED" }
    ∷ record { id = codes "7f1d92cb"; graph = codes "rag-agent"; status = codes "COMPLETED" }
    ∷ record { id = codes "b40e87aa"; graph = codes "react-agent"; status = codes "INTERRUPTED" }
    ∷ []

-- The place of a node in the drawing.
pub record Place : Type 0 where
  pub name : Text
  pub x : ℕ
  pub y : ℕ
  pub w : ℕ
  pub h : ℕ
  pub kind : Text

-- `Object.entries(NODE_LAYOUT)`
unfoldable pub node_layout : List Place
node_layout =
    record { name = codes "validate"; x = 320; y = 70; w = 120; h = 56; kind = codes "node" }
    ∷ record { name = codes "enrich"; x = 320; y = 180; w = 120; h = 56; kind = codes "parallel ∥" }
    ∷ record { name = codes "score"; x = 320; y = 290; w = 120; h = 56; kind = codes "async" }
    ∷ record {
      name = codes "charge";
      x = 200;
      y = 400;
      w = 120;
      h = 56;
      kind = codes "node · retry(3)";
    }
    ∷ record { name = codes "ship"; x = 440; y = 400; w = 120; h = 56; kind = codes "node" }
    ∷ []

pub record Edge : Type 0 where
  pub from : Text
  pub to : Text
  pub label : Option Text

unfoldable pub edges : List Edge
edges =
    record { from = codes "validate"; to = codes "enrich"; label = some (codes "valid") }
    ∷ record { from = codes "enrich"; to = codes "score"; label = none }
    ∷ record { from = codes "score"; to = codes "charge"; label = some (codes "risk<.5") }
    ∷ record { from = codes "charge"; to = codes "ship"; label = some (codes "charged") }
    ∷ []
