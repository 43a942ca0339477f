-- ===== src/Gst/Data.antt =====
-- GstBuffer, GstSegment, GstCaps, GstFlowReturn and the tags of a GstTagList, as far as the
-- elements look at them.
use ubox_publisher.Common.{ℕ, Bool, true, false, Option, String, if◌then◌else◌}
use ubox_publisher.Common.Memory.{Bytes}
use ubox_publisher.Gst.Numbers.{ℤ, is_valid, clock_time_none}

pub data FlowReturn : Type 0 where
  ok eos error flushing : FlowReturn
  -- Any other value that comes from downstream.
  other : ℕ → FlowReturn

abbrev pub is_ok : FlowReturn → Bool
is_ok ok = true
is_ok _ = false

pub record Buffer : Type 0 where
  pub bytes : Bytes
  pub pts : ℕ
  pub dts : ℕ
  pub duration : ℕ
  pub offset : ℕ
  pub offset_end : ℕ
  -- GST_BUFFER_FLAG_DELTA_UNIT and GST_BUFFER_FLAG_HEADER.
  pub delta_unit : Bool
  pub is_header : Bool

-- GST_BUFFER_DTS_OR_PTS
abbrev pub dts_or_pts : Buffer → ℕ
dts_or_pts b = if is_valid b.dts then b.dts else b.pts

-- A new buffer over a block.
abbrev pub new_buffer : Bytes → Buffer
new_buffer bytes = record {
  bytes = bytes;
  pts = clock_time_none;
  dts = clock_time_none;
  duration = clock_time_none;
  offset = clock_time_none;
  offset_end = clock_time_none;
  delta_unit = false;
  is_header = false;
}

pub record Segment : Type 0 where
  pub start : ℕ
  pub stop : ℕ
  pub position : ℕ

-- The first structure of a GstCaps. A field that is absent, or is of another type, is `none`.
pub record Caps : Type 0 where
  pub name : String
  pub layout : Option String
  pub mpegversion : Option ℤ
  pub layer : Option ℤ
  pub rate : Option ℤ
  pub channels : Option ℤ
  -- What gst_audio_info_from_caps finds for the sample width, if it accepts the caps.
  pub audio_info_width : Option ℕ
  pub width : Option ℤ
  pub height : Option ℤ
  pub pixel_aspect_ratio : Option (ℤ × ℤ)
  pub framerate : Option (ℤ × ℤ)
  pub codec_data : Option Buffer

-- An entry of a tag list; the value is what the typed getter of that tag returns.
pub data Tag : Type 0 where
  duration : Option ℕ → Tag
  artist : Option Bytes → Tag
  title : Option Bytes → Tag
  nominal_bitrate : ℕ → Tag
  bitrate : ℕ → Tag
  other_tag : String → Tag

-- GST_TAG_MERGE_REPLACE and GST_TAG_MERGE_KEEP; the tag setter's own default is another.
pub data MergeMode : Type 0 where
  replace keep unset : MergeMode
