-- ===== src/Mux.antt =====
-- uflv/gstflvmux.c and uflv/gstflvmux.h: the FLV muxer.
pub mod State
pub mod Caps
pub mod Tag
pub mod Script
pub mod Push
pub mod Index
pub mod Metadata
pub mod Pads
pub mod Run
pub mod Aggregate
