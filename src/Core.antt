-- ===== src/Core.antt =====
-- firmware/Core: the codec of the main loop, the serial line and the loop itself.
pub mod Protobuf
pub mod SerialIo
pub mod MainLoop
pub mod Main
pub mod Syscalls
pub mod Uart
pub mod Clock
pub mod PortB
pub mod Led
mod Tests
