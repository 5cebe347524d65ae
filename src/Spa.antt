-- ===== src/Spa.antt =====
-- The vanilla single-page app, tracegraph-ui/src/main/resources/META-INF/resources/tracegraph/ui/app.js.
pub mod Escape
mod Tests
pub mod Template
pub mod Api
pub mod Router
pub mod Nav
pub mod Platform
pub mod Steps
pub mod StateDiff
pub mod TraceList
pub mod TraceView
pub mod DiffView
pub mod GraphView
pub mod Session
pub mod Toast
