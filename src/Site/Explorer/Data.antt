-- ===== src/Site/Explorer/Data.antt =====
-- The run that the explorer shows and the graph it is drawn on, from data.jsx.
mod Recording
mod Drawing
pub use Recording.{Usage, Step, LogLine}
unfoldable pub use Recording.{
  validate_step, enrich_step, score_step, charge_step, ship_step, steps, logs, execution_id,
  graph_name, started_at, run_duration,
}
pub use Drawing.{Run, Place, Edge}
unfoldable pub use Drawing.{trace_list, node_layout, edges}
