-- ===== src/Gst/Platform.antt =====
-- The functions and macros of GStreamer and GLib that the elements call. A field is a function
-- of the library, and a law is what its documentation says and the elements rely on.
use ubox_publisher.Common.{ℕ, Option, ◌^◌, ◌<◌, ◌≡◌, length}
use ubox_publisher.Common.Memory.{Bytes}
use ubox_publisher.Gst.Numbers.{be16, be24, be32, ℤ}
use ubox_publisher.Gst.Data.{Segment}

pub record Platform : Type 1 where
  -- gdouble, its conversions and its division
  pub Double : Type 0
  pub uint64_to_double : ℕ → Double
  pub int_to_double : ℤ → Double
  pub fraction_to_double : ℤ → ℤ → Double
  pub divide : Double → Double → Double
  -- GST_WRITE_UINT16_BE and its kin
  pub write_uint16_be : ℕ → Bytes
  pub write_uint24_be : ℕ → Bytes
  pub write_uint32_be : ℕ → Bytes
  pub write_double_be : Double → Bytes
  pub write_uint16_be_lem : (n : ℕ) → write_uint16_be n ≡ be16 n
  pub write_uint24_be_lem : (n : ℕ) → write_uint24_be n ≡ be24 n
  pub write_uint32_be_lem : (n : ℕ) → write_uint32_be n ≡ be32 n
  pub length-write_double_be : (d : Double) → length (write_double_be d) ≡ 8
  -- What a block of g_malloc holds at first.
  pub malloc : ℕ → Bytes
  pub length-malloc : (n : ℕ) → length (malloc n) ≡ n
  -- gst_segment_to_running_time in GST_FORMAT_TIME
  pub segment_to_running_time : Segment → ℕ → ℕ
  pub segment_to_running_time-lt : (s : Segment) (t : ℕ) → segment_to_running_time s t < 2 ^ 64
  -- gst_segment_to_running_time_full, `none` unless it returns 1
  pub segment_to_running_time_full : Segment → ℕ → Option ℕ
