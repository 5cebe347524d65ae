-- ===== src/Site/Docs/Bodies.antt =====
-- `DOC_PAGES` of docs.jsx: the bodies of the pages, by the groups of the sidebar.
pub mod Start
pub mod Concepts
pub mod Runtime
pub mod Integration
unfoldable pub use trace_graph.Site.Docs.Bodies.Start.{
  quickstart_body, install_body, firstgraph_body,
}
unfoldable pub use trace_graph.Site.Docs.Bodies.Concepts.{
  graphs_body, state_body, edges_body, parallel_body,
}
unfoldable pub use trace_graph.Site.Docs.Bodies.Runtime.{
  retries_body, checkpoints_body, memory_body, interrupts_body,
}
unfoldable pub use trace_graph.Site.Docs.Bodies.Integration.{
  otel_body, replay_body, spring_body, llm_body, rest_body,
}
