-- ===== src/Packets.antt =====
-- internal/web/static/modules/packets.js, a module for each part of its state.
pub mod Html
pub mod Entry
pub mod Sort
pub mod Headers
pub mod Sorted
pub mod Row
pub mod Typing
pub mod PresetDialog
pub mod State
pub mod Handlers
pub mod Events
pub mod Invariant
pub mod FastPath
