-- ===== src/Demux.antt =====
-- The FLV demuxer, uflv/gstflvdemux.c and uflv/gstflvdemux.h.
pub mod State
pub mod Header
pub mod Env
pub mod Send
pub mod Script
pub mod Metadata
pub mod Negotiate
pub mod Push
pub mod Audio
pub mod Video
pub mod Seek
pub mod Chain
pub mod Pull
pub mod Events
pub mod Queries
