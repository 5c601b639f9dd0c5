-- ===== src/Commander.antt =====
-- The two-pane file manager, frontend/src/features/commander/model.
pub mod Types
pub mod Mask
pub mod Ordering
pub mod PaneState
pub mod Persistence
pub mod ParentPath
pub mod Navigation
pub mod Selection
pub mod Template
pub mod Preview
pub mod Operations
pub mod Confirm
pub mod Request
pub mod Handlers
pub mod Store
pub mod StorePersistence
pub mod Keyboard
pub mod ViewModel
pub mod RuntimePath
