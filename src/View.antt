-- ===== src/View.antt =====
-- client/src/components/ChatView.tsx: what the view of a conversation computes and does.
pub mod Render
pub mod Loop
pub mod Layout
pub mod Laid
pub mod Reactions
pub mod Tally
pub mod Toggle
pub mod Opening
pub mod Stale
pub mod Text
pub mod Mentions
pub mod Compose
pub mod Drafts
pub mod Bubbles
pub mod Typing
pub mod Heard
pub mod Throttle
