-- ===== src/Site/Home/Viz/Nodes.antt =====
-- The nodes of the drawing of home.jsx.
use trace_graph.Base.{ℕ, Text, codes, List, [], ◌∷◌, Bool, true, false, Option, none, some}

-- A node of the drawing.
pub record VizNode : Type 0 where
  pub x : ℕ
  pub y : ℕ
  pub w : ℕ
  pub h : ℕ
  pub label : Text
  pub sub : Option Text
  pub solid : Bool
  pub accent : Bool
  pub pulse : Bool

unfoldable pub viz_nodes : List VizNode
viz_nodes =
    record {
      x = 300;
      y = 32;
      w = 120;
      h = 38;
      label = codes "entry";
      sub = none;
      solid = true;
      accent = false;
      pulse = false;
    }
    ∷ record {
      x = 300;
      y = 130;
      w = 120;
      h = 50;
      label = codes "validate";
      sub = some (codes "12ms · ok");
      solid = false;
      accent = true;
      pulse = false;
    }
    ∷ record {
      x = 150;
      y = 240;
      w = 120;
      h = 50;
      label = codes "enrich";
      sub = some (codes "parallel · 3");
      solid = false;
      accent = false;
      pulse = false;
    }
    ∷ record {
      x = 450;
      y = 240;
      w = 120;
      h = 50;
      label = codes "score";
      sub = some (codes "async · llm");
      solid = false;
      accent = false;
      pulse = false;
    }
    ∷ record {
      x = 300;
      y = 350;
      w = 120;
      h = 50;
      label = codes "charge";
      sub = some (codes "running… retry 1/3");
      solid = false;
      accent = true;
      pulse = true;
    }
    ∷ record {
      x = 320;
      y = 438;
      w = 80;
      h = 32;
      label = codes "terminal";
      sub = none;
      solid = true;
      accent = false;
      pulse = false;
    }
    ∷ []
