-- ===== src/Utils.antt =====
-- utils.c: reading from and writing to a file descriptor, and the dot form of payload object numbers.
pub mod Reading
pub mod Logging
pub mod Reads
pub mod Ends
pub mod Stored
pub mod Sends
pub mod Writing
pub mod DotForm
