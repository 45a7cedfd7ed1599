-- ===== src/Session.antt =====
-- src/pyrewire/session.py, the class `Session`, and src/pyrewire/compound.py.
pub mod Object
pub mod Rows
pub mod TypedRows
pub mod Updates
pub mod Deltas
pub mod Snapshot
pub mod Lifecycle
pub mod Modes
pub mod Threads
