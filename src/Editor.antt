-- ===== src/Editor.antt =====
-- apps/web/src/editor and the editor components of apps/web/src/components/editor.
pub mod Marks
pub mod Yjs
pub mod Markdown
pub mod YText
pub mod Input
pub mod View
pub mod Toggle
pub mod Handlers
pub mod SlashMenu
pub mod Renderer
mod Tests
