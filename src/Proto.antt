-- ===== src/Proto.antt =====
-- src/chunkymonkey/proto/proto.go, the packets between client and server.
pub mod Wire
pub mod Ids
pub mod Event
pub mod Metadata
pub mod Session
pub mod Player
pub mod Entity
pub mod Spawn
pub mod World
pub mod Windows
pub mod Dispatch
pub mod Sent
pub mod Reading
pub mod Shrinks
pub mod Stable
pub mod Stream
pub mod Framing
pub mod Receive
mod Tests
