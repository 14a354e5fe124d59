-- ===== src/Memory.antt =====
-- The program under Memory Manager/: an allocator on a heap that grows by pages.
--
-- Memory is the 64-bit rows by their addresses, counted in rows, so an address is a C address divided
-- by eight: all that the allocator keeps is aligned so. A block info is one row with its bit fields;
-- a header is followed by its two links. What Memory Manager/lib/ gives is the interface `Sfutil`.
pub mod Info
pub mod Blocks
pub mod FreeLists
pub mod Grow
pub mod Alloc
pub mod Tests
