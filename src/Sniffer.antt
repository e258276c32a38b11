-- ===== src/Sniffer.antt =====
-- backend/core/sniffer.py: the capture process and the shared memory that it writes.
pub mod Bits
pub mod Memory
pub mod Entry
pub mod Shm
pub mod Capture
