-- ===== src/Util.antt =====
-- include/util and src/util, the parts below the messages.
pub mod Hex
pub mod Calendar
pub mod Bcd
pub mod Charset
pub mod PrintBuffer
pub mod BlockQueue
pub mod Socket
pub mod Timer
