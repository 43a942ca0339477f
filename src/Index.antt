-- ===== src/Index.antt =====
-- The index objects of the demuxer: uflv/gstindex.c, and uflv/gstmemindex.c.
pub mod Entry
pub mod Trees
pub mod Memory
pub mod Objects
pub mod Writers
pub mod Ops
pub mod Sections
