-- ===== src/Tests.antt =====
-- Concrete inputs: fixtures, runs of the model on them, and the theorems applied to them.
mod Fixtures
mod Contexts
mod Conversations
mod Flows
mod Keys
mod Moves
mod Operations
mod Paths
mod Sessions
mod Storing
mod Streams
mod Transfers
mod Views
mod Witnesses
