-- ===== src/Tests.antt =====
-- Runs of the model at fixed inputs, and the theorems at concrete data.
mod Allocator
mod Chunks
mod Console
mod Bitwise
mod Guest
mod Exits
mod SetUp
mod Nested
mod Kernel
mod Loop
mod Boot
mod Loader
mod Interrupts
mod Logging
