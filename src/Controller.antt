-- ===== src/Controller.antt =====
-- include/controller.h and src/controller.cc: two channels, from and to a server each.
pub mod Channel
pub mod Receive
pub mod Lifecycle
