-- ===== src/Gst.antt =====
-- What the elements use of GStreamer and GLib: the data that they read and write, and, as the
-- parameters `Platform` and `Readers`, the functions and macros that they call.
pub mod Numbers
pub mod Data
pub mod Platform
pub mod Readers
