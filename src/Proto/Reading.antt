-- ===== src/Proto/Reading.antt =====
-- A packet of src/chunkymonkey/proto/proto.go is read back as it was written.
pub mod Both
pub mod Items
pub mod Server
pub mod Entities
pub mod World
