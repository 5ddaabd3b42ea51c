-- ===== src/Loader.antt =====
-- boot/freeldr: the boot loader's reading of the disk (`Disk`, `Retry`) and of the memory map (`Memory`). What the
-- BIOS returns is an argument.
pub mod Disk
pub mod Retry
pub mod Video
pub mod Print
pub mod Memory
mod Tests
