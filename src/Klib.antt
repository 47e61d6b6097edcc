-- ===== src/Klib.antt =====
-- The kernel's own library of data structures and routines: klib/, include/klib/.
pub mod Queue
pub mod Ring
pub mod Bitops
pub mod Memory
pub mod Strings
pub mod Atomic
