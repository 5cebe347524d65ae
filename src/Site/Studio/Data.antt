-- ===== src/Site/Studio/Data.antt =====
-- `STUDIO_NODES` of data.jsx: the nodes that the studio lists.
use trace_graph.Base.{Text, codes, List, [], ◌∷◌, Bool, true, false}

pub record StudioNode : Type 0 where
  pub name : Text
  pub kind : Text
  pub fn : Text
  pub retry : Text
  pub entry : Bool
  pub terminal : Bool

unfoldable pub studio_nodes : List StudioNode
studio_nodes =
    record {
      name = codes "validate";
      kind = codes "node";
      fn = codes "OrderNodes::validate";
      retry = codes "—";
      entry = true;
      terminal = false;
    }
    ∷ record {
      name = codes "enrich";
      kind = codes "parallel";
      fn = codes "List.of(profile, fraud, inv)";
      retry = codes "—";
      entry = false;
      terminal = false;
    }
    ∷ record {
      name = codes "score";
      kind = codes "async";
      fn = codes "OrderNodes::scoreAsync";
      retry = codes "—";
      entry = false;
      terminal = false;
    }
    ∷ record {
      name = codes "charge";
      kind = codes "node";
      fn = codes "OrderNodes::charge";
      retry = codes "exponential(3)";
      entry = false;
      terminal = false;
    }
    ∷ record {
      name = codes "ship";
      kind = codes "node";
      fn = codes "OrderNodes::ship";
      retry = codes "—";
      entry = false;
      terminal = true;
    }
    ∷ []
