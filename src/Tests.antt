-- ===== src/Tests.antt =====
-- Sample platform, peers, pads and buffers, on which the theorems are applied.
pub mod Muxer
pub mod Samples
pub mod Demuxer
pub mod Streams
pub mod Turns
pub mod Indexes
use ubox_publisher.Common.{
  ℕ, ◌+◌, ◌-◌, ◌/◌, ◌%◌, ◌^◌, ◌<◌, refl, Bool, true, false, Option, none, some, List, [], ◌∷◌, ◌++◌,
  u64, arith,
}
use ubox_publisher.Common.Memory.{Bytes, memset, length-memset, codes}
use ubox_publisher.Gst.Numbers.{clock_time_none, clock_stime_none, be16, be24, be32, ℤ}
use ubox_publisher.Gst.Data.{Buffer, Segment, Caps, Tag, ok, keep}
use ubox_publisher.Gst.Platform.{Platform}
use ubox_publisher.Mux.State.{Kind, audio, video, MuxPad, Mux, header_state}
use ubox_publisher.Mux.Push.{Peers}

abbrev sample_int : ℤ → ℕ
sample_int (ℤ.pos n) = n
sample_int (ℤ.negsuc n) = 0

pub u64-lt : (n : ℕ) → u64 n < 2 ^ 64
u64-lt n = omega arith

-- Whole numbers stand for doubles, and a new block is full of junk.
abbrev pub sample_platform : Platform
sample_platform = record {
  Double = ℕ;
  uint64_to_double = λ n. n;
  int_to_double = sample_int;
  fraction_to_double = λ a b. sample_int a / sample_int b;
  divide = λ a b. a / b;
  write_uint16_be = λ n. be16 n;
  write_uint24_be = λ n. be24 n;
  write_uint32_be = λ n. be32 n;
  write_double_be = λ n. be32 (n / 2 ^ 32) ++ be32 n;
  write_uint16_be_lem = λ n. refl;
  write_uint24_be_lem = λ n. refl;
  write_uint32_be_lem = λ n. refl;
  length-write_double_be = λ n. refl;
  malloc = λ n. memset 170 n;
  length-malloc = λ n. length-memset 170 n;
  segment_to_running_time = λ s t. u64 (t - s.start);
  segment_to_running_time-lt = λ s t. u64-lt (t - s.start);
  segment_to_running_time_full = λ s t. some (t - s.start);
}

abbrev pub sample_peers : Peers
sample_peers = record {
  finish_buffer = λ sent buffer. ok;
  accepts_segment = λ sent. true;
  seekable = some true;
  peer_duration = λ kind. some 5_000_000_000;
  current_caps = λ kind. none;
  creation_date = codes "Thu Jan  1 00:00:00 1970";
}

abbrev pub sample_segment : Segment
sample_segment = record { start = 0; stop = clock_time_none; position = 0 }

abbrev pub key_buffer : Buffer
key_buffer = record {
  bytes = 0 ∷ 0 ∷ 0 ∷ 2 ∷ 101 ∷ 136 ∷ [];
  pts = 80_000_000;
  dts = 40_000_000;
  duration = 40_000_000;
  offset = 0;
  offset_end = 6;
  delta_unit = false;
  is_header = false;
}

-- A pad with H.264 video and a buffer.
abbrev pub video_pad : MuxPad
video_pad = record {
  codec = 7;
  rate = 0;
  width = 0;
  channels = 0;
  codec_data = none;
  bitrate = 0;
  last_timestamp = 0;
  pts = 80_000_000;
  dts = 40_000_000;
  segment = sample_segment;
  queued = some key_buffer;
  is_eos = false;
}

-- A pad with AAC audio and no buffer.
abbrev pub audio_pad : MuxPad
audio_pad = record {
  codec = 10;
  rate = 3;
  width = 1;
  channels = 1;
  codec_data = none;
  bitrate = 128_000;
  last_timestamp = 0;
  pts = clock_stime_none;
  dts = clock_stime_none;
  segment = sample_segment;
  queued = none;
  is_eos = false;
}

abbrev pub sample_mux : Mux ℕ
sample_mux = record {
  state = header_state;
  audio_pad = some audio_pad;
  video_pad = some video_pad;
  sinkpads = audio ∷ video ∷ [];
  streamable = false;
  metadatacreator = codes "uflvmux";
  tag_merge_mode = keep;
  tags = Tag.title (some (codes "A film")) ∷ [];
  new_tags = false;
  index = [];
  byte_count = 0;
  duration = clock_time_none;
  first_timestamp = 0;
  last_dts = 30;
  src_segment = sample_segment;
  streamheader = none;
  sent = [];
}

abbrev pub aac_caps : Caps
aac_caps = record {
  name = "audio/mpeg";
  layout = none;
  mpegversion = some (ℤ.pos 4);
  layer = none;
  rate = some (ℤ.pos 44100);
  channels = some (ℤ.pos 2);
  audio_info_width = none;
  width = none;
  height = none;
  pixel_aspect_ratio = none;
  framerate = none;
  codec_data = none;
}
