-- ===== src/Tests/Samples.antt =====
-- Sample readers, neighbours and a demuxer, on which the demuxer's theorems are applied.
use ubox_publisher.Common.{
  ℕ, ◌+◌, ◌*◌, refl, Bool, true, false, ◌||◌, none, some, List, [], ◌∷◌, ◌==◌, ltb, if◌then◌else◌,
  take, drop, replicate, arith,
}
use ubox_publisher.Common.Memory.{Bytes}
use ubox_publisher.Gst.Numbers.{clock_time_none, second, pos}
use ubox_publisher.Gst.Data.{ok}
use ubox_publisher.Gst.Platform.{Platform}
use ubox_publisher.Gst.Readers.{Readers, byte_of, taken}
use ubox_publisher.Demux.State.{header_state, Stream, IndexOps, Neighbours}
use ubox_publisher.Demux.Header.{Upstream}
use ubox_publisher.Demux.Env.{Dates, Env}
use ubox_publisher.Demux.Send.{State}
use ubox_publisher.Demux.Seek.{fresh_segment}
use ubox_publisher.Tests.{sample_platform}

-- A double is a whole number, in the first of eight places.
abbrev pub place_platform : Platform
place_platform = record sample_platform {
  write_double_be = λ n. n ∷ 0 ∷ 0 ∷ 0 ∷ 0 ∷ 0 ∷ 0 ∷ 0 ∷ [];
  length-write_double_be = λ n. refl;
}

abbrev be_value : ℕ → Bytes → ℕ
be_value acc [] = acc
be_value acc (b ∷ bs) = be_value (acc * 256 + b) bs

abbrev pub sample_readers : Readers place_platform
sample_readers = record {
  read_uint16_be = λ bs. be_value 0 bs;
  read_uint24_be = λ bs. be_value 0 bs;
  read_uint32_be = λ bs. be_value 0 bs;
  read_uint16_be_lem = λ a b. omega arith;
  read_uint24_be_lem = λ a b c. omega arith;
  read_uint32_be_lem = λ a b c d. omega arith;
  read_double_be = λ bs. byte_of bs;
  read_double_be-write_double_be = λ d. refl;
  get_uint8 = λ bs. taken 1 byte_of bs;
  get_uint16_be = λ bs. taken 2 (λ cs. be_value 0 cs) bs;
  get_uint32_be = λ bs. taken 4 (λ cs. be_value 0 cs) bs;
  get_float64_be = λ bs. taken 8 byte_of bs;
  get_data = λ n bs. taken n (λ x. x) bs;
  get_uint8_lem = λ bs. refl;
  get_uint16_be_lem = λ bs. refl;
  get_uint32_be_lem = λ bs. refl;
  get_float64_be_lem = λ bs. refl;
  get_data_lem = λ n bs. refl;
  try_malloc0 = λ n. true;
  utf8_validate = λ s. true;
  utf8_validate_ascii = λ s h. refl;
  double_to_uint64 = λ d. d;
  double_to_uint32 = λ d. d;
  times_second = λ d. d * second;
  times_1024 = λ d. d * 1024;
}

abbrev has_entry : List (Bool × ℕ × ℕ) → ℕ → Bool
has_entry [] position = false
has_entry ((key, time, at) ∷ entries) position = (at == position) || has_entry entries position

abbrev pub sample_index : IndexOps
sample_index = record {
  Index = List (Bool × ℕ × ℕ);
  has_position = has_entry;
  add_association = λ entries key time at. (key, time, at) ∷ entries;
  key_unit_at = λ entries after time. none;
  key_unit_before_position = λ index pos. none;
}

abbrev pub sample_neighbours : Neighbours ℕ
sample_neighbours = record {
  push_result = λ sent. ok;
  caps_accepted = λ sent. true;
  event_accepted = λ sent. true;
  pulled = λ offset size sent. (ok, replicate size 0);
  pad_made = λ kind sent. true;
  current_caps = λ kind sent. none;
  caps_is_equal = λ a b. false;
  sticky_group = λ sent. none;
  group_id_next = λ sent. 1;
  codec_description = λ caps. none;
  combined = λ sent. ok;
  is_not_linked = λ n. n == 1;
  is_below_eos = λ n. ltb 3 n;
  aac_rate = λ i. 44100;
  aac_channels = λ bs. 2;
  guess_framerate = λ d. (d, 1);
  is_nonzero = λ d. if d == 0 then false else true;
  zero_double = 0;
  empty_comment = [];
  copy_region = λ off n bs. take n (drop off bs);
  copy_region_lem = λ off n bs h. refl;
  do_seek = λ event segment. segment;
}

abbrev pub sample_dates : Dates
sample_dates = record {
  tokens = λ s. [];
  strtoull = λ s. (0, true);
  scan_time = λ s. (0, pos 0, pos 0, pos 0);
  is_date = λ d. true;
}

abbrev pub sample_upstream : Upstream
sample_upstream = record { seeking = some (true, some 0, none); size = some 4096 }

abbrev pub sample_env : Env place_platform
sample_env = record {
  readers = sample_readers;
  index = sample_index;
  neighbours = sample_neighbours;
  dates = sample_dates;
  upstream = λ sent. sample_upstream;
}

abbrev pub no_stream : Stream
no_stream = record {
  pad = false;
  codec_tag = 0;
  buffer_offset = 0;
  need_discont = true;
  need_segment = true;
  codec_data = none;
  start = clock_time_none;
  last = 0;
  time_offset = 0;
  first_ts = clock_time_none;
  done = false;
}

abbrev pub sample_demux : State place_platform sample_env
sample_demux = record {
  state = header_state;
  offset = 0;
  cur_tag_offset = 0;
  tag_size = 0;
  tag_data_size = 0;
  duration = clock_time_none;
  audio_stream = no_stream;
  video_stream = no_stream;
  rate = 0;
  channels = 0;
  width = 0;
  has_audio = false;
  has_video = false;
  need_header = true;
  strict = false;
  flushing = false;
  no_more_pads = false;
  random_access = false;
  seeking = false;
  building_index = false;
  seek_event = none;
  seek_time = 0;
  file_size = 0;
  from_offset = none;
  to_offset = 0;
  group_id = none;
  segment = fresh_segment;
  new_seg_event = none;
  index = some [];
  own_index = false;
  indexed = false;
  upstream_seekable = true;
  index_max_pos = 0;
  index_max_time = 0;
  times = none;
  filepositions = none;
  taglist = [];
  audio_tags = [];
  video_tags = [];
  w = 0;
  h = 0;
  par_x = 1;
  par_y = 1;
  got_par = false;
  framerate = 0;
  sent = [];
}
