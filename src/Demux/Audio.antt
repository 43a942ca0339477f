-- ===== src/Demux/Audio.antt =====
-- gst_flv_demux_parse_tag_audio. `none` is a load from outside of the buffer.
pub mod Flags
use ubox_publisher.Common.{
  ℕ, ◌+◌, ◌*◌, ◌/◌, ◌%◌, ◌^◌, ◌-◌, Bool, true, false, not, ◌&&◌, ◌||◌, Option, none, some, List, [],
  ◌∷◌, ltb, leb, ◌==◌, if◌then◌else◌, length, bit_or, bit_and, sub64, u64,
}
use ubox_publisher.Common.Memory.{Bytes}
use ubox_publisher.Common.Options.{◌>>=◌}
use ubox_publisher.Gst.Numbers.{clock_time_none, msecond}
use ubox_publisher.Gst.Data.{FlowReturn, ok, error}
use ubox_publisher.Gst.Platform.{Platform}
use ubox_publisher.Mux.State.{Kind, audio}
use ubox_publisher.Demux.State.{Demux, Stream, OutBuffer}
use ubox_publisher.Demux.Header.{byte_at, read24}
use ubox_publisher.Demux.Env.{Env}
use ubox_publisher.Demux.Send.{State}
use ubox_publisher.Demux.Negotiate.{AudioFormat, audio_negotiate}
use ubox_publisher.Demux.Push.{
  Step, returns, goes_on, and_then, result, create_pad, renegotiate, update_resync, push_buffer,
}

-- The format in the flags of an audio tag.
unfoldable pub audio_format : ℕ → AudioFormat
audio_format flags =
    let t = flags / 16 in
    let rate_bits = bit_and flags 0x0c in
    let flag_rate =
      if rate_bits == 0x0c
      then 44100
      else if rate_bits == 0x08
      then 22050
      else if rate_bits == 0x04
      then 11025
      else 5512 in
    record {
      codec_tag = t;
      rate =
          if (t == 5) || (t == 14) || (t == 7) || (t == 8)
          then 8000
          else if (t == 4) || (t == 11)
          then 16000
          else flag_rate;
      channels = if bit_and flags 1 == 0 then 1 else 2;
      width = if bit_and flags 2 == 0 then 8 else 16;
    }

-- AAC has an extra byte for the type of the packet.
abbrev pub audio_data_offset : ℕ → ℕ
audio_data_offset codec_tag = if codec_tag == 10 then 2 else 1

abbrev pub is_none : {A : Type 0} → Option A → Bool
is_none none = true
is_none (some a) = false

module _ (p : Platform) (e : Env p) where
  open e use {readers, index, neighbours}

  -- The bytes behind the codec's own ones; the size may go below 0.
  abbrev pub region : ℕ → Bytes → State p e → Bytes
  region data_offset bs demux =
      neighbours.copy_region (7 + data_offset) (sub64 demux.tag_data_size data_offset) bs

  abbrev pub keep_audio_data : AudioFormat → Bytes → State p e → Step (State p e)
  keep_audio_data f data' demux =
      let kept = record demux {
        audio_stream = record demux.audio_stream { codec_data = some data' };
      } in
      let (accepted, negotiated) = audio_negotiate p e f kept in
      returns ok (if demux.audio_stream.pad then negotiated else kept)

  -- The type of an AAC packet: 0 is the codec data, and other packets need it.
  unfoldable pub aac_packet : AudioFormat → ℕ → Bytes → State p e → Step (State p e)
  aac_packet f type bs demux =
      if not (f.codec_tag == 10)
      then goes_on demux
      else if type == 0
      then keep_audio_data f (region 2 bs demux) demux
      else if (type == 1) && is_none demux.audio_stream.codec_data
      then returns ok demux
      else goes_on demux

  abbrev pub audio_changed : AudioFormat → State p e → Bool
  audio_changed f demux =
      not (f.rate == demux.rate)
      || not (f.channels == demux.channels)
      || not (f.codec_tag == demux.audio_stream.codec_tag)
      || not (f.width == demux.width)

  -- Audio goes into the index only if there is no video.
  abbrev pub audio_indexes : State p e → Bool
  audio_indexes demux = not demux.has_video && not demux.indexed

  unfoldable pub send_audio : ℕ → Bytes → State p e → FlowReturn × State p e
  send_audio pts data' demux =
      let (resync, s) = update_resync pts demux.audio_stream in
      let time = u64 (pts * msecond + s.time_offset) in
      let buffer : OutBuffer = record {
        bytes = data';
        pts = time;
        dts = time;
        duration = clock_time_none;
        offset = s.buffer_offset;
        offset_end = u64 (s.buffer_offset + 1);
        resync = resync;
        delta_unit = false;
        discont = false;
      } in
      let next = record demux {
        audio_stream = record s { buffer_offset = u64 (s.buffer_offset + 1) };
      } in
      push_buffer p e audio audio_indexes true buffer next

  -- The tag's data, from the flags on.
  unfoldable pub audio_data : ℕ → ℕ → ℕ → Bytes → State p e → FlowReturn × State p e
  audio_data pts flags packet_type bs demux =
      let f = audio_format flags in
      let data_offset = audio_data_offset f.codec_tag in
      result (
        and_then (aac_packet f packet_type bs demux) λ d1.
          and_then (create_pad p e audio (audio_negotiate p e f) (λ d. d) d1) λ d2.
            and_then
              (renegotiate p e audio (audio_changed f d2) (audio_negotiate p e f) (λ d. d) d2)
              λ d3.
                if leb d3.tag_data_size data_offset
                then returns ok d3
                else (let (ret, d4) = send_audio pts (region data_offset bs d3) d3 in
                    returns ret d4))

  unfoldable pub parse_tag_audio : Bytes → State p e → Option (FlowReturn × State p e)
  parse_tag_audio bs demux =
      if not demux.audio_stream.pad && demux.no_more_pads
      then some (ok, demux)
      else if not (length bs == demux.tag_size)
      then some (error, demux)
      else if ltb (length bs) 11
      then some (error, demux)
      else (do
        low ← read24 p readers index 0 bs
        high ← byte_at 3 bs
        flags ← byte_at 7 bs
        packet_type ← (if flags / 16 == 10 then byte_at 8 bs else some 0)
        some (
            if length bs == 11
            then (ok, demux)
            else audio_data (bit_or low (high * 16777216)) flags packet_type bs demux))
