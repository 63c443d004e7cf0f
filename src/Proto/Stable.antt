-- ===== src/Proto/Stable.antt =====
-- What more is received does not change how src/chunkymonkey/proto/proto.go reads what is there.
pub mod Loops
pub mod Readers
pub mod Tables
