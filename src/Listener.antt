-- ===== src/Listener.antt =====
-- listener/main_active.c: what the active listener keeps of its file descriptors, and what it does to
-- the connections when it starts, when a worker dies, and at a message.
pub mod Table
pub mod Cleanup
pub mod Recover
pub mod Match
pub mod Adopt
pub mod Handlers
mod Tests
