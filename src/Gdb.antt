-- ===== src/Gdb.antt =====
-- src/gdb_server.h and src/gdb_server.cpp: the server that a debugger talks to.
pub mod Text
pub mod Split
pub mod Server
pub mod Dispatch
pub mod Receive
pub mod Digits
pub mod Framing
pub mod Fields
pub mod Delivery
pub mod Registers
pub mod Breakpoints
pub mod Memories
pub mod Access
pub mod Commands
pub mod Pending
pub mod Stops
