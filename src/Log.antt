-- ===== src/Log.antt =====
-- log.c: the thread that takes messages from the FIFO, the debug filter and what it includes.
mod Tests
pub mod Forward
pub mod Output
pub mod Filter
pub mod Inclusion
