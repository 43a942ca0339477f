-- ===== src/Demux/Header.antt =====
-- gst_flv_demux_parse_header, gst_flv_demux_parse_tag_type, gst_flv_demux_parse_tag_timestamp and
-- gst_flv_demux_check_seekability. `none` is a load from outside of the buffer.
pub mod RoundTrip
pub mod Bounds
use ubox_publisher.Common.{
  ℕ, ◌+◌, ◌*◌, ◌/◌, ◌%◌, Bool, true, false, not, ◌&&◌, ◌||◌, Option, none, some, List, [], ◌∷◌, ltb,
  leb, ◌==◌, if◌then◌else◌, length, bit_or, bit_and, u64,
}
use ubox_publisher.Common.Memory.{Bytes, load}
use ubox_publisher.Common.Options.{◌>>=◌}
use ubox_publisher.Gst.Numbers.{clock_time_none, msecond}
use ubox_publisher.Gst.Data.{FlowReturn, ok, eos, error}
use ubox_publisher.Gst.Platform.{Platform}
use ubox_publisher.Gst.Readers.{Readers, byte_of}
use ubox_publisher.Demux.State.{
  Demux, IndexOps, DemuxState, tag_type_state, tag_video_state, tag_audio_state, tag_script_state,
  skip_state, parse_and_add_index_entry,
}

-- The answer to the seeking query in bytes: whether one can seek, its start and its stop, and to
-- the query of the duration. A gint64 of -1 is `none`.
pub record Upstream : Type 0 where
  pub seeking : Option (Bool × Option ℕ × Option ℕ)
  pub size : Option ℕ

-- `start != 0 || stop <= start`
abbrev pub unknown_range : Option ℕ → Option ℕ → Bool
unknown_range (some start) (some stop) = not (start == 0) || leb stop start
unknown_range _ _ = true

abbrev pub or_else : Option ℕ → Option ℕ → Option ℕ
or_else none b = b
or_else (some a) b = some a

unfoldable pub is_seekable : Upstream → Bool
is_seekable up = elim up.seeking [
  | none ↦ false
  | some (seekable, start, stop) ↦ seekable && not (unknown_range start (or_else stop up.size))
]

abbrev pub byte_at : ℕ → Bytes → Option ℕ
byte_at off bs = do b ← load off 1 bs; some (byte_of b)

module _ (p : Platform) (r : Readers p) (o : IndexOps) where
  open p use {Double}

  -- The flags of the header, and the one-time check of seekability.
  unfoldable pub read_flags : Upstream → ℕ → Demux Double o.Index → Demux Double o.Index
  unfolding is_seekable
  read_flags up flags demux = record demux {
    has_video = not (bit_and flags 1 == 0);
    has_audio = not (bit_and flags 4 == 0);
    upstream_seekable = is_seekable up;
    need_header = false;
  }

  abbrev pub has_signature : ℕ → ℕ → ℕ → Bool
  has_signature f l v = (f == b'F') && (l == b'L') && (v == b'V')

  unfoldable pub parse_header :
      Upstream → Bytes → Demux Double o.Index → Option (FlowReturn × Demux Double o.Index)
  parse_header up bs demux = if ltb (length bs) 9 then some (error, demux) else (do
    f ← byte_at 0 bs
    l ← byte_at 1 bs
    v ← byte_at 2 bs
    version ← byte_at 3 bs
    flags ← byte_at 4 bs
    if demux.strict && (not (has_signature f l v) || not (version == b'1'))
        then some (eos, demux)
        else some (ok, read_flags up flags demux))

  abbrev pub read24 : ℕ → Bytes → Option ℕ
  read24 off bs = do b ← load off 3 bs; some (r.read_uint24_be b)

  abbrev pub read32 : ℕ → Bytes → Option ℕ
  read32 off bs = do b ← load off 4 bs; some (r.read_uint32_be b)

  -- The state that the type of a tag leads to.
  unfoldable pub enter_tag : ℕ → Demux Double o.Index → Demux Double o.Index
  enter_tag tag_type demux =
      if tag_type == 9
      then record demux { state = tag_video_state; has_video = true }
      else if tag_type == 8
      then record demux { state = tag_audio_state; has_audio = true }
      else if tag_type == 18
      then record demux { state = tag_script_state }
      else record demux { state = skip_state }

  unfoldable pub parse_tag_type :
      Bytes → Demux Double o.Index → Option (FlowReturn × Demux Double o.Index)
  parse_tag_type bs demux = if ltb (length bs) 4 then some (error, demux) else (do
    tag_type ← byte_at 0 bs
    size ← read24 1 bs
    some (ok, enter_tag tag_type (record demux { tag_data_size = size; tag_size = size + 11 })))

  -- What parse_tag_timestamp returns, with `*tag_size` where it is written.
  pub record Stamp : Type 0 where
    pub timestamp : ℕ
    pub tag_size : Option ℕ
    pub demux : Demux Double o.Index

  abbrev pub see_type : ℕ → Demux Double o.Index → Demux Double o.Index
  see_type type demux =
      if type == 9
      then record demux { has_video = true }
      else if type == 8
      then record demux { has_audio = true }
      else demux

  abbrev pub longer_duration : ℕ → Demux Double o.Index → Demux Double o.Index
  longer_duration ts demux =
      if (demux.duration == clock_time_none) || ltb demux.duration ts
      then record demux { duration = ts }
      else demux

  -- Whether the tag belongs into the index.
  abbrev pub is_indexed : Bool → ℕ → Demux Double o.Index → Bool
  is_indexed index type demux =
      index && not demux.indexed && ((type == 9) || ((type == 8) && not demux.has_video))

  unfoldable pub stamped : Bool → ℕ → ℕ → Bool → ℕ → Demux Double o.Index → Stamp
  unfolding parse_and_add_index_entry
  stamped index type size keyframe ts demux =
      let indexed =
        if is_indexed index type demux
        then parse_and_add_index_entry o ts demux.offset keyframe demux
        else demux in
      record { timestamp = ts; tag_size = some (size + 15); demux = longer_duration ts indexed }

  abbrev pub keyframe_of : ℕ → Bytes → Option Bool
  keyframe_of type bs =
      if type == 9 then (do flags ← byte_at 11 bs; some (flags / 16 == 1)) else some true

  -- The size behind the tag, where the buffer reaches so far, is the tag's.
  abbrev pub is_tag_size : ℕ → Bytes → Option Bool
  is_tag_size size bs =
      if leb (size + 11 + 4) (length bs)
      then (do n ← read32 (size + 11) bs; some (n == size + 11))
      else some true

  abbrev pub failed_stamp : Demux Double o.Index → Stamp
  failed_stamp demux = record { timestamp = clock_time_none; tag_size = none; demux = demux }

  unfoldable pub parse_tag_timestamp : Bool → Bytes → Demux Double o.Index → Option Stamp
  parse_tag_timestamp index bs demux = if ltb (length bs) 12 then some (failed_stamp demux) else (do
    type ← byte_at 0 bs
    size ← read24 1 bs
    right ← is_tag_size size bs
    low ← read24 4 bs
    high ← byte_at 7 bs
    keyframe ← keyframe_of type bs
    if (type == 9) || (type == 8) || (type == 18)
        then (if right
            then some (
                stamped index type size keyframe (bit_or low (high * 16777216) * msecond)
                  (see_type type demux))
            else some (failed_stamp (see_type type demux)))
        else some (failed_stamp demux))
