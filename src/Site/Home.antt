-- ===== src/Site/Home.antt =====
-- home.jsx: the home page.
mod Viz
mod Top
mod Features
mod Model
mod Replay
mod Modules
use trace_graph.Base.{codes, [], ◌∷◌}
use trace_graph.Site.Markup.{div_tag, class_name, Node, el}
use trace_graph.Site.Home.Top.{hero, key_stats, cta_section}
use trace_graph.Site.Home.Features.{feature_grid}
use trace_graph.Site.Home.Model.{model_section}
use trace_graph.Site.Home.Replay.{replay_section}
use trace_graph.Site.Home.Modules.{modules_section}

-- `Home`.
unfoldable pub home_page : Node
unfolding hero key_stats feature_grid model_section replay_section modules_section cta_section
home_page = el div_tag (class_name (codes "fade-up") ∷ []) (
    hero ∷ key_stats ∷ feature_grid ∷ model_section ∷ replay_section ∷ modules_section ∷ cta_section
    ∷ [])
