-- ===== src/Spa/StateDiff/Keys.antt =====
-- The keys of a state diff are the union of the keys of both states, each once.
use trace_graph.Base.{Text, List, [], ◌∷◌, false, ◌≡◌}
use trace_graph.Spa.StateDiff.{member}

-- Every key stands once.
abbrev pub AreDistinct : List Text → Type 0
AreDistinct [] = Unit
AreDistinct (k ∷ ks) = (member k ks ≡ false) × AreDistinct ks
