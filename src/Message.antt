-- ===== src/Message.antt =====
-- include/protocol/message: the messages and their byte formats.
pub mod Print
pub mod Header
pub mod Inh
pub mod InhRes
pub mod State
pub mod State2
