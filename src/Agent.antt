-- ===== src/Agent.antt =====
-- The agent panel, frontend/src/features/agent/model.
pub mod Types
pub mod Audit
pub mod Intent
pub mod Flow
pub mod Conversation
pub mod Client
pub mod Submission
pub mod MessageView
pub mod Conversations
pub mod Context
