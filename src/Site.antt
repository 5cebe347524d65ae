-- ===== src/Site.antt =====
-- The React site, tracegraph-ui/src/main/resources/META-INF/resources/tracegraph/ui/src.
pub mod Shell
pub mod Highlight
pub mod Explorer
pub mod Studio
pub mod Docs
pub mod Labels
pub mod Markup
pub mod Drawing
pub mod Primitives
pub mod Header
pub mod Footer
pub mod Home
pub mod App
mod Tests
