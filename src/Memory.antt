-- ===== src/Memory.antt =====
-- Memory as the protocol code uses it: machine words, and reads and writes at `buf + offset`.
pub mod Word
pub mod Read
pub mod Write
pub mod Buffer
pub mod Text
