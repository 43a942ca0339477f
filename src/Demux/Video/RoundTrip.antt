-- ===== src/Demux/Video/RoundTrip.antt =====
-- What the demuxer makes of the video tags of the muxer.
use ubox_publisher.Common.{
  ℕ, ◌+◌, ◌*◌, ◌/◌, ◌%◌, ◌^◌, ◌<◌, ◌≡◌, refl, sym, ap, ◌∙◌, Bool, true, false, not, ◌&&◌, subst,
  Bool-cases, inl, inr, some, [], ◌∷◌, ◌++◌, ltb, leb, ◌==◌, ==_iff, if◌then◌else◌, length,
  length-append, drop, take-append, bit_and, bit_or, sub64, arith,
}
use ubox_publisher.Common.Memory.{Bytes}
use ubox_publisher.Common.Or.{bit_or-shifted}
use ubox_publisher.Common.Bits.{bit_and_low4}
use ubox_publisher.Gst.Numbers.{be24, be32}
use ubox_publisher.Gst.Data.{Buffer}
use ubox_publisher.Gst.Platform.{Platform}
use ubox_publisher.Mux.State.{video, MuxPad}
use ubox_publisher.Mux.Tag.{video_flags}
use ubox_publisher.Mux.Tag.Layout.{tag_body, flv_tag}
use ubox_publisher.Mux.Caps.Fields.{video_flags-fields}
use ubox_publisher.Demux.Env.{Env}
use ubox_publisher.Demux.Send.{State}
use ubox_publisher.Demux.Header.RoundTrip.{byte_at-append, read24-be24}
use ubox_publisher.Demux.Negotiate.{video_negotiate}
use ubox_publisher.Demux.Push.{goes_on, create_pad, renegotiate}
use ubox_publisher.Demux.Audio.{region, is_none}
use ubox_publisher.Demux.Video.{
  has_packets, video_data_offset, composition_time, avc_packet, video_changed, forget_par,
  send_video, video_data, parse_tag_video,
}

-- The size of the tag, behind it.
abbrev pub size_behind : Bytes → Bytes
size_behind data' = be32 (length (0 ∷ 0 ∷ 0 ∷ 0 ∷ 0 ∷ data') + 11)

-- What stands behind the first four bytes of a tag with a packet type and a composition time.
abbrev pub packet_tag : ℕ → ℕ → ℕ → ℕ → Bytes → Bytes
packet_tag dts flags type cts data' =
    be24 dts
    ++ ((dts / 16777216 % 256 ∷ 0 ∷ 0 ∷ 0 ∷ [])
        ++ ((flags ∷ type ∷ (be24 cts ++ data')) ++ size_behind data'))

if_true : {A : Type 0} (b : Bool) (x y : A) → b ≡ true → (if b then x else y) ≡ x
if_true true x y h = refl
if_true false x y h = cc

data_offset_5 : (t : ℕ) → has_packets t ≡ true → video_data_offset t ≡ 5
data_offset_5 t h = ground arith

keyframe_not : (delta : Bool) (type : ℕ) → type ≡ (if delta then 2 else 1) → (type == 1) ≡ not delta
keyframe_not true type h = ground arith
keyframe_not false type h = ground arith

-- The video stream is set up for the codec.
pub record IsReady (p : Platform) (e : Env p) (codec : ℕ) (demux : State p e) : Type 0 where
  pub has_pad : demux.video_stream.pad ≡ true
  pub same_codec : demux.video_stream.codec_tag ≡ codec
  pub has_data : is_none demux.video_stream.codec_data ≡ false
  pub no_par : demux.got_par ≡ false

module _ (p : Platform) (e : Env p) where
  open e use {readers, index, neighbours}

  avc_packet-ready :
      (codec : ℕ) (bs : Bytes) (demux : State p e)
      → is_none demux.video_stream.codec_data ≡ false
      → avc_packet p e codec 1 bs demux ≡ goes_on demux
  unfolding avc_packet
  avc_packet-ready codec bs demux h = elim (Bool-cases (not (has_packets codec))) [
    | inl e ↦ rw e refl
    | inr e ↦ rw (e, h) refl
  ]

  create_pad-ready :
      (negotiate : State p e → Bool × State p e) (settle : State p e → State p e)
      (demux : State p e)
      → demux.video_stream.pad ≡ true
      → create_pad p e video negotiate settle demux ≡ goes_on demux
  unfolding create_pad
  create_pad-ready negotiate settle demux h = if_true _ _ _ h

  renegotiate-ready :
      (changed : Bool) (negotiate : State p e → Bool × State p e) (settle : State p e → State p e)
      (demux : State p e)
      → changed ≡ false
      → renegotiate p e video changed negotiate settle demux ≡ goes_on demux
  unfolding renegotiate
  renegotiate-ready changed negotiate settle demux h = if_true _ _ _ (ap not h)

  region-packet_tag :
      (dts flags type cts : ℕ) (data' : Bytes) (demux : State p e)
      → demux.tag_data_size ≡ 5 + length data'
      → 5 + length data' < 2 ^ 24
      → region p e 5 (packet_tag dts flags type cts data') demux ≡ data'
  region-packet_tag dts flags type cts data' demux h short =
      let n : sub64 demux.tag_data_size 5 ≡ length data' = omega arith in
      ap (λ k. neighbours.copy_region 12 k (packet_tag dts flags type cts data')) n
      ∙ neighbours.copy_region_lem 12 (length data') (packet_tag dts flags type cts data')
          (omega (arith, length-append data' (size_behind data')))
      ∙ take-append data' (size_behind data')

  video_data-ready :
      (dts flags cts : ℕ) (data' bs : Bytes) (demux : State p e)
      → has_packets (bit_and flags 15) ≡ true
      → IsReady p e (bit_and flags 15) demux
      → (region p e 5 bs demux ≡ data')
      → 5 < demux.tag_data_size
      → video_data p e dts flags 1 cts bs demux
        ≡ send_video p e dts cts (flags / 16 == 1) data' demux
  unfolding video_data
  video_data-ready dts flags cts data' bs demux packets ready data_read long =
      let t = bit_and flags 15 in
      let known : (t == demux.video_stream.codec_tag) ≡ true =
        (==_iff t demux.video_stream.codec_tag).1 (sym ready.same_codec) in
      let stays : video_changed p e t demux ≡ false = rw (known, ready.no_par) refl in
      let enough : leb demux.tag_data_size 5 ≡ false = ground arith in
      rw
        (
          avc_packet-ready t bs demux ready.has_data,
          create_pad-ready (video_negotiate p e t) (forget_par p e) demux ready.has_pad,
          renegotiate-ready (video_changed p e t demux) (video_negotiate p e t) (forget_par p e)
              demux stays,
          data_offset_5 t packets,
          enough,
          data_read,
        )
        refl

  parse_tag_video-packet_tag :
      (dts flags cts : ℕ) (data' : Bytes) (demux : State p e)
      → dts < 2 ^ 32
      → cts < 2 ^ 24
      → 5 + length data' < 2 ^ 24
      → 0 < length data'
      → has_packets (bit_and flags 15) ≡ true
      → IsReady p e (bit_and flags 15) demux
      → demux.tag_data_size ≡ 5 + length data'
      → demux.tag_size ≡ 5 + length data' + 11
      → parse_tag_video p e (packet_tag dts flags 1 cts data') demux
        ≡ some (send_video p e dts (composition_time cts dts) (flags / 16 == 1) data' demux)
  unfolding parse_tag_video
  parse_tag_video-packet_tag dts flags cts data' demux hd hc short some_data packets ready n size =
      let bs = packet_tag dts flags 1 cts data' in
      let ext : Bytes = dts / 16777216 % 256 ∷ 0 ∷ 0 ∷ 0 ∷ [] in
      let end' : Bytes = data' ++ size_behind data' in
      let behind : Bytes = flags ∷ 1 ∷ (be24 cts ++ end') in
      let total : length bs ≡ 16 + length data' =
        omega (arith, length-append data' (size_behind data')) in
      let fits : (length bs == demux.tag_size) ≡ true = ground arith in
      let long : ltb (length bs) 12 ≡ false = ground arith in
      let time : bit_or (dts % 2 ^ 24) (dts / 16777216 % 256 * 16777216) ≡ dts =
        bit_or-shifted 24 (dts % 2 ^ 24) (dts / 16777216 % 256) (omega arith) ∙ omega arith in
      let free : (not demux.video_stream.pad && demux.no_more_pads) ≡ false =
        ap (λ b. not b && demux.no_more_pads) ready.has_pad in
      let cts_fits : cts % 2 ^ 24 ≡ cts = omega arith in
      rw
        (
          fits,
          free,
          long,
          read24-be24 p readers index 0 dts [] (ext ++ behind) refl,
          byte_at-append p readers index 3 (dts / 16777216 % 256) (be24 dts) (0 ∷ 0 ∷ 0 ∷ behind)
              refl,
          byte_at-append p readers index 7 flags (be24 dts ++ ext) (1 ∷ (be24 cts ++ end')) refl,
          byte_at-append p readers index 8 1 (be24 dts ++ (ext ++ (flags ∷ []))) (be24 cts ++ end')
              refl,
          packets,
          read24-be24 p readers index 9 cts (be24 dts ++ (ext ++ (flags ∷ 1 ∷ []))) end' refl,
          time,
          cts_fits,
        )
        (ap some (
          video_data-ready dts flags (composition_time cts dts) data' bs demux packets ready
            (region-packet_tag dts flags 1 cts data' demux n short) (omega arith)))

  packet_tag-tag_body :
      (dts cts : ℕ) (pad : MuxPad) (buffer : Buffer)
      → has_packets pad.codec ≡ true
      → 0 < length buffer.bytes
      → drop 4 (flv_tag 9 dts (tag_body video pad (some buffer) false cts))
        ≡ packet_tag dts (video_flags buffer.delta_unit pad.codec) 1 cts buffer.bytes
  unfolding flv_tag tag_body
  packet_tag-tag_body dts cts pad buffer packets some_data =
      let empty : (length buffer.bytes == 0) ≡ false = ground arith in rw (packets, empty) refl

  -- For a buffer with bytes, of a codec with packets, that the muxer puts into a tag with a
  -- timestamp below 2 ^ 32 and a composition time below 2 ^ 24: a demuxer whose video stream is set
  -- up for the codec sends on what send_video sends for the bytes of that buffer, the timestamp
  -- and what composition_time reads, as a keyframe exactly if the buffer was one.
  pub parse_tag_video-tag_body :
      (dts cts : ℕ) (pad : MuxPad) (buffer : Buffer) (demux : State p e)
      → dts < 2 ^ 32
      → cts < 2 ^ 24
      → 5 + length buffer.bytes < 2 ^ 24
      → 0 < length buffer.bytes
      → has_packets pad.codec ≡ true
      → IsReady p e pad.codec demux
      → demux.tag_data_size ≡ 5 + length buffer.bytes
      → demux.tag_size ≡ 5 + length buffer.bytes + 11
      → parse_tag_video p e
          (drop 4 (flv_tag 9 dts (tag_body video pad (some buffer) false cts)))
          demux
        ≡ some (
            send_video p e dts
              (composition_time cts dts)
              (not buffer.delta_unit)
              buffer.bytes
              demux)
  parse_tag_video-tag_body dts cts pad buffer demux hd hc short some_data packets ready n size =
      let flags = video_flags buffer.delta_unit pad.codec in
      let (type, low, byte) = video_flags-fields buffer.delta_unit pad.codec in
      let small : pad.codec < 16 = ground arith in
      let codec : bit_and flags 15 ≡ pad.codec = bit_and_low4 flags byte ∙ low ∙ omega arith in
      let frame : (flags / 16 == 1) ≡ not buffer.delta_unit =
        keyframe_not buffer.delta_unit (flags / 16) type in
      let run =
        parse_tag_video-packet_tag dts flags cts buffer.bytes demux hd hc short some_data
          (subst (λ c. has_packets c ≡ true) (sym codec) packets)
          (subst (λ c. IsReady p e c demux) (sym codec) ready) n size in
      ap (λ bs. parse_tag_video p e bs demux)
        (packet_tag-tag_body dts cts pad buffer packets some_data)
      ∙ run
      ∙ ap (λ k. some (send_video p e dts (composition_time cts dts) k buffer.bytes demux)) frame
