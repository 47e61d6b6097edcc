-- ===== src/Page.antt =====
-- The page frame database: kern/page-pfdb.c, include/kern/page-pfdb.h and page-pframe.h.
pub mod Frame
pub mod Pool
pub mod Weights
pub mod Tiles
pub mod Halves
pub mod Split
pub mod Shape
pub mod HandOut
pub mod Dequeue
mod Tests
mod DatabaseTests
pub mod Cycle
pub mod GiveBack
pub mod Enqueue
pub mod Merge
pub mod FreeBuddy
pub mod Join
pub mod Buddies
pub mod Database
pub mod Areas
pub mod UseCount
pub mod Stat
pub mod Lookup
