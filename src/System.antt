-- ===== src/System.antt =====
-- The app as a system: an upload, the clock and the approval together, and the SDK's loop of events.
pub mod Approved
pub mod Shown
pub mod Reset
