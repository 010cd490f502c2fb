-- ===== src/Tests.antt =====
-- Runs of the code at concrete messages, and the theorems at them.
mod Handshake
mod States
mod States2
mod Receiver
mod Packets
mod Wire
mod Hex
mod Channel
mod Exchange
mod Lifecycle
mod Callback
mod Bcd
mod Charset
mod Prints
mod Buffers
mod SelfTest
