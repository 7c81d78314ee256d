-- ===== src/Editor/Markdown.antt =====
-- apps/web/src/editor/paste-markdown.ts. The lexer is the library marked: its tokens are the input.
pub mod Likely
pub mod Inline
pub mod Blocks
