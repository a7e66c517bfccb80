-- ===== src/Relay.antt =====
-- The session relay: the frames on its wire, its invite codes and its rooms (workers/session-relay/).
pub mod Frames
pub mod Wire
pub mod Chunks
pub mod Codes
pub mod Invites
pub mod Rooms
pub mod Routing
pub mod Kicks
pub mod Doors
pub mod Served
pub mod Joined
mod Tests
