-- ===== src/Programs.antt =====
-- src/test and the sample src/server/server_socket.c: small programs over the components, and
-- experiments. Those over the vectors and the database stand with these.
mod Tests
pub mod Dictionary
pub mod Signals
pub mod Byte
pub mod Classes
pub mod Sketches
