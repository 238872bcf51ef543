-- ===== src/Markdown.antt =====
-- client/src/utils/markdown.tsx: the spans of a line of text, the mentions in a span, and the blocks of
-- a message. What stands for a React node is data. A regular expression is a function on the text that
-- starts at the place where it is tried.
pub mod Inline
pub mod Matches
pub mod Spans
pub mod Mentions
pub mod Blocks
