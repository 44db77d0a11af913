-- ===== src/Tests.antt =====
-- Runs of the model on concrete trees, and the theorems at them.
mod Sync
mod Content
mod Delta
mod Buffer
mod Poll
mod Target
mod Rounds
mod Conversation
mod Wire
