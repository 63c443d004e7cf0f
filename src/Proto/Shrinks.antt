-- ===== src/Proto/Shrinks.antt =====
-- No reader of the server, in src/chunkymonkey/proto/proto.go, lengthens the stream, runs on without end,
-- or calls the handler before it fails.
pub mod Readers
pub mod Tables
