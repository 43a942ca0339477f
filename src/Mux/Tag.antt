-- ===== src/Mux/Tag.antt =====
-- gst_flv_mux_buffer_to_tag_internal and its three callers: an FLV tag around the bytes of one
-- buffer. `data[11]` is put together by `|=` over the zero that memset left there.
pub mod Layout
pub mod Times
pub mod Whole
use ubox_publisher.Common.{
  ℕ, ◌+◌, ◌-◌, ◌*◌, ◌/◌, ◌%◌, ◌^◌, Bool, true, false, ◌&&◌, ◌||◌, Option, none, some, List, [], ◌∷◌,
  ◌++◌, ltb, ◌==◌, if◌then◌else◌, u32, sub32, length, replicate,
}
use ubox_publisher.Common.Memory.{Bytes, Store, fill}
use ubox_publisher.Common.Bits.{or_fields, or_nibbles}
use ubox_publisher.Gst.Numbers.{clock_time_none, is_valid_stime, msecond, stime_to_msecs}
use ubox_publisher.Gst.Data.{Buffer, dts_or_pts, new_buffer}
use ubox_publisher.Gst.Platform.{Platform}
use ubox_publisher.Mux.State.{
  Kind, audio, video, MuxPad, Mux, M, ◌>>=◌, ◌>>◌, pure, lift, modify, gets,
}

-- The three numbers that the timestamps come to: the tag's dts and cts, and mux->last_dts.
pub record TagTimes : Type 0 where
  pub dts : ℕ
  pub cts : ℕ
  pub last_dts : ℕ

-- `pad->last_timestamp / GST_MSECOND` and, for a signed time, `pad->dts / GST_MSECOND`, stored in
-- a guint32.
abbrev pub to_msecs : ℕ → ℕ
to_msecs t = u32 (t / msecond)

abbrev pub signed_to_msecs : ℕ → ℕ
signed_to_msecs t = u32 (stime_to_msecs t)

-- A dts below `last_dts` is replaced by it. `dts` is a guint32 and `last_dts` a guint64.
abbrev pub forward_dts : ℕ → ℕ → ℕ
forward_dts dts last_dts = if ltb dts last_dts then u32 last_dts else dts

abbrev pub composition_time : ℕ → ℕ → ℕ
composition_time pts dts = if ltb dts pts then pts - dts else 0

-- `dts -= mux->first_timestamp / GST_MSECOND`
abbrev pub from_start : ℕ → ℕ → ℕ
from_start first_timestamp dts =
    if is_valid_stime first_timestamp
    then u32 (dts + 2 ^ 64 - stime_to_msecs first_timestamp)
    else dts

unfoldable pub tag_times : ℕ → ℕ → MuxPad → TagTimes
tag_times last_dts first_timestamp pad =
    let valid = is_valid_stime pad.dts in
    let pts : ℕ = if valid then signed_to_msecs pad.pts else to_msecs pad.last_timestamp in
    let dts : ℕ =
      forward_dts (if valid then signed_to_msecs pad.dts else to_msecs pad.last_timestamp)
        last_dts in
    record { dts = from_start first_timestamp dts; cts = composition_time pts dts; last_dts = dts }

abbrev pub is_avc : ℕ → Bool
is_avc codec = codec == 7 || codec == 12

-- What stands between the first byte of the tag's data and the buffer's bytes.
abbrev pub extra_size : Kind → ℕ → ℕ
extra_size video codec = if is_avc codec then 4 else 0
extra_size audio codec = if codec == 10 then 1 else 0

-- `size`, a guint
abbrev pub tag_size : Kind → ℕ → ℕ → ℕ
tag_size kind codec bsize = u32 (u32 (12 + (extra_size kind codec + bsize)) + 4)

abbrev pub tag_type : Kind → ℕ
tag_type video = 9
tag_type audio = 8

abbrev pub video_flags : Bool → ℕ → ℕ
video_flags delta codec = or_nibbles (if delta then 2 else 1) (codec % 16)

abbrev pub audio_flags : MuxPad → ℕ
audio_flags pad = or_fields (pad.codec % 16) (pad.rate % 4) (pad.width % 2) (pad.channels % 2)

-- Codec data, end of sequence, or a NAL unit.
abbrev pub packet_type : Bool → ℕ → ℕ
packet_type is_codec_data bsize = if is_codec_data then 0 else if bsize == 0 then 2 else 1

abbrev pub packet_cts : Bool → ℕ → ℕ → ℕ
packet_cts is_codec_data bsize cts = if is_codec_data then 0 else if bsize == 0 then 0 else cts

-- What the caller passes beside the pad: `buffer`, and `is_codec_data`.
abbrev pub bdata : Option Buffer → Bytes
bdata none = []
bdata (some b) = b.bytes

abbrev pub is_delta : Option Buffer → Bool
is_delta none = false
is_delta (some b) = b.delta_unit

module _ (p : Platform) where
  open p use {write_uint24_be, write_uint32_be}

  unfoldable pub video_stores : MuxPad → Option Buffer → Bool → ℕ → List Store
  video_stores pad buffer is_codec_data cts =
      let bytes = bdata buffer in
      let flags : Store = (11, video_flags (is_delta buffer) pad.codec ∷ []) in
      if is_avc pad.codec
      then flags
        ∷ (12, packet_type is_codec_data (length bytes) ∷ [])
        ∷ (13, write_uint24_be (packet_cts is_codec_data (length bytes) cts))
        ∷ (16, bytes)
        ∷ []
      else flags ∷ (12, bytes) ∷ []

  unfoldable pub audio_stores : MuxPad → Option Buffer → Bool → List Store
  audio_stores pad buffer is_codec_data =
      let flags : Store = (11, audio_flags pad ∷ []) in
      if pad.codec == 10
      then flags ∷ (12, (if is_codec_data then 0 else 1) ∷ []) ∷ (13, bdata buffer) ∷ []
      else flags ∷ (12, bdata buffer) ∷ []

  unfoldable pub body_stores : Kind → MuxPad → Option Buffer → Bool → ℕ → List Store
  unfolding video_stores audio_stores
  body_stores video pad buffer is_codec_data cts = video_stores pad buffer is_codec_data cts
  body_stores audio pad buffer is_codec_data cts = audio_stores pad buffer is_codec_data

  -- The eleven bytes of the tag's header.
  unfoldable pub header_stores : ℕ → ℕ → ℕ → List Store
  header_stores type size dts =
      let data_size = sub32 size 15 in
      (0, type ∷ [])
      ∷ (1, data_size / 65536 % 256 ∷ [])
      ∷ (2, data_size / 256 % 256 ∷ [])
      ∷ (3, data_size % 256 ∷ [])
      ∷ (4, write_uint24_be dts)
      ∷ (7, dts / 16777216 % 256 ∷ [])
      ∷ (8, 0 ∷ 0 ∷ 0 ∷ [])
      ∷ []

  unfoldable pub tag_block : Kind → MuxPad → Option Buffer → Bool → TagTimes → Option Bytes
  unfolding body_stores header_stores
  tag_block kind pad buffer is_codec_data times =
      let size = tag_size kind pad.codec (length (bdata buffer)) in
      fill
        ((0, replicate size 0)
          ∷ (header_stores (tag_type kind) size times.dts
              ++ (body_stores kind pad buffer is_codec_data times.cts
                  ++ ((size - 4, write_uint32_be (size - 4)) ∷ []))))
        (p.malloc size)

  -- Streamable output has running times, other output the buffer's offsets.
  unfoldable pub copy_times : Bool → MuxPad → Buffer → Buffer → Buffer
  copy_times true pad b tag = elim (p.segment_to_running_time_full pad.segment (dts_or_pts b)) [
    | none ↦ tag
    | some t ↦ record tag { pts = t; duration = b.duration }
  ]
  copy_times false pad b tag = record tag { offset = b.offset; offset_end = b.offset_end }

  -- The times, offsets and flags of the tag.
  unfoldable pub stamp : Bool → Kind → MuxPad → Option Buffer → Buffer → Buffer
  unfolding copy_times
  stamp streamable kind pad none tag = record tag { delta_unit = true }
  stamp streamable video pad (some b) tag = record (copy_times streamable pad b tag) {
    delta_unit = b.delta_unit;
  }
  stamp streamable audio pad (some b) tag = copy_times streamable pad b tag

  unfoldable pub buffer_to_tag_internal : Kind → MuxPad → Option Buffer → Bool → M p.Double Buffer
  buffer_to_tag_internal kind pad buffer is_codec_data mux =
      let times = tag_times mux.last_dts mux.first_timestamp pad in
      elim (tag_block kind pad buffer is_codec_data times) [
        | none ↦ none
        | some bytes ↦ some (
          stamp mux.streamable kind pad buffer (new_buffer bytes),
          record mux { last_dts = times.last_dts },
        )
      ]

  unfoldable pub buffer_to_tag : Kind → MuxPad → Buffer → M p.Double Buffer
  buffer_to_tag kind pad buffer = buffer_to_tag_internal kind pad (some buffer) false

  unfoldable pub codec_data_buffer_to_tag : Kind → MuxPad → Buffer → M p.Double Buffer
  codec_data_buffer_to_tag kind pad buffer = buffer_to_tag_internal kind pad (some buffer) true

  unfoldable pub eos_to_tag : Kind → MuxPad → M p.Double Buffer
  eos_to_tag kind pad = buffer_to_tag_internal kind pad none false
