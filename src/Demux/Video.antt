-- ===== src/Demux/Video.antt =====
-- gst_flv_demux_parse_tag_video. `none` is a load from outside of the buffer.
pub mod Times
pub mod RoundTrip
pub mod Bounds
pub mod Opens
pub mod Sends
use ubox_publisher.Common.{
  ℕ, ◌+◌, ◌*◌, ◌/◌, ◌%◌, ◌^◌, ◌-◌, Bool, true, false, not, ◌&&◌, ◌||◌, Option, none, some, List, [],
  ◌∷◌, ltb, leb, ◌==◌, if◌then◌else◌, length, bit_or, bit_and, bit_xor, sub32, sub64, u32, u64,
}
use ubox_publisher.Common.Memory.{Bytes}
use ubox_publisher.Common.Options.{◌>>=◌}
use ubox_publisher.Gst.Numbers.{clock_time_none, msecond}
use ubox_publisher.Gst.Data.{FlowReturn, ok, error}
use ubox_publisher.Gst.Platform.{Platform}
use ubox_publisher.Mux.State.{Kind, video}
use ubox_publisher.Demux.State.{Demux, Stream, OutBuffer}
use ubox_publisher.Demux.Header.{byte_at, read24}
use ubox_publisher.Demux.Env.{Env}
use ubox_publisher.Demux.Send.{State}
use ubox_publisher.Demux.Negotiate.{video_negotiate}
use ubox_publisher.Demux.Push.{
  Step, returns, goes_on, and_then, result, create_pad, renegotiate, update_resync, push_buffer,
}
use ubox_publisher.Demux.Audio.{region, is_none}

-- The codecs with a packet type and a composition time
abbrev pub has_packets : ℕ → Bool
has_packets codec_tag = (codec_tag == 7) || (codec_tag == 12)

abbrev pub video_data_offset : ℕ → ℕ
video_data_offset codec_tag =
    if (codec_tag == 4) || (codec_tag == 5) then 2 else if has_packets codec_tag then 5 else 1

-- `(cts + 0xff800000) ^ 0xff800000` in 32 bits
abbrev pub sign_extended : ℕ → ℕ
sign_extended cts = bit_xor (u32 (cts + 0xff800000)) 0xff800000

-- ABS of the bit pattern of a gint32
abbrev pub abs32 : ℕ → ℕ
abs32 n = if ltb n (2 ^ 31) then n else 2 ^ 32 - n

-- The composition time, which is no more than `dts` below 0.
unfoldable pub composition_time : ℕ → ℕ → ℕ
composition_time bits dts =
    let cts = sign_extended bits in
    if leb (2 ^ 31) cts && ltb dts (abs32 cts) then u32 (cts + sub32 (abs32 cts) dts) else cts

module _ (p : Platform) (e : Env p) where
  open e use {readers, index, neighbours}

  abbrev pub keep_video_data : ℕ → Bytes → State p e → Step (State p e)
  keep_video_data codec_tag data' demux =
      let kept = record demux {
        video_stream = record demux.video_stream { codec_data = some data' };
      } in
      let (accepted, negotiated) = video_negotiate p e codec_tag kept in
      returns ok (if demux.video_stream.pad then negotiated else kept)

  -- The type of an H.264 or H.265 packet: 0 is the codec data, and 1 needs it.
  unfoldable pub avc_packet : ℕ → ℕ → Bytes → State p e → Step (State p e)
  avc_packet codec_tag type bs demux =
      if not (has_packets codec_tag)
      then goes_on demux
      else if type == 0
      then (if ltb demux.tag_data_size 5
          then goes_on demux
          else keep_video_data codec_tag (region p e 5 bs demux) demux)
      else if (type == 1) && is_none demux.video_stream.codec_data
      then returns ok demux
      else goes_on demux

  abbrev pub forget_par : State p e → State p e
  forget_par demux = record demux { got_par = false }

  abbrev pub video_changed : ℕ → State p e → Bool
  video_changed codec_tag demux = not (codec_tag == demux.video_stream.codec_tag) || demux.got_par

  abbrev pub video_indexes : State p e → Bool
  video_indexes demux = not demux.indexed

  unfoldable pub send_video : ℕ → ℕ → Bool → Bytes → State p e → FlowReturn × State p e
  send_video dts cts keyframe data' demux =
      let (resync, s) = update_resync dts demux.video_stream in
      let buffer : OutBuffer = record {
        bytes = data';
        pts = u64 (u32 (dts + cts) * msecond + s.time_offset);
        dts = u64 (dts * msecond + s.time_offset);
        duration = clock_time_none;
        offset = s.buffer_offset;
        offset_end = u64 (s.buffer_offset + 1);
        resync = resync;
        delta_unit = not keyframe;
        discont = false;
      } in
      let next = record demux {
        video_stream = record s { buffer_offset = u64 (s.buffer_offset + 1) };
      } in
      push_buffer p e video video_indexes keyframe buffer next

  unfoldable pub video_data : ℕ → ℕ → ℕ → ℕ → Bytes → State p e → FlowReturn × State p e
  video_data dts flags packet_type cts bs demux =
      let t = bit_and flags 15 in
      let data_offset = video_data_offset t in
      result (
        and_then (avc_packet t packet_type bs demux) λ d1.
          and_then (create_pad p e video (video_negotiate p e t) forget_par d1) λ d2.
            and_then
              (renegotiate p e video (video_changed t d2) (video_negotiate p e t) forget_par d2)
              λ d3.
                if leb d3.tag_data_size data_offset
                then returns ok d3
                else (let (ret, d4) =
                      send_video dts cts (flags / 16 == 1) (region p e data_offset bs d3) d3 in
                    returns ret d4))

  unfoldable pub parse_tag_video : Bytes → State p e → Option (FlowReturn × State p e)
  parse_tag_video bs demux =
      if not (length bs == demux.tag_size)
      then some (error, demux)
      else if not demux.video_stream.pad && demux.no_more_pads
      then some (ok, demux)
      else if ltb (length bs) 12
      then some (error, demux)
      else (do
        low ← read24 p readers index 0 bs
        high ← byte_at 3 bs
        flags ← byte_at 7 bs
        bits ← (if has_packets (bit_and flags 15) then read24 p readers index 9 bs else some 0)
        packet_type ← (if has_packets (bit_and flags 15) then byte_at 8 bs else some 0)
        let dts = bit_or low (high * 16777216) in
            some (video_data dts flags packet_type (composition_time bits dts) bs demux))
