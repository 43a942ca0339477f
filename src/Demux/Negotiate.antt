-- ===== src/Demux/Negotiate.antt =====
-- have_group_id, gst_flv_demux_audio_negotiate, gst_flv_demux_video_negotiate and the creation of
-- the pads.
use ubox_publisher.Common.{
  ℕ, ◌/◌, Bool, true, false, not, ◌||◌, Option, none, some, List, [], ◌∷◌, ◌++◌, leb, ◌==◌,
  if◌then◌else◌, length, take, bit_and, replicate,
}
use ubox_publisher.Common.Memory.{Bytes, codes}
use ubox_publisher.Gst.Platform.{Platform}
use ubox_publisher.Mux.State.{Kind, audio, video}
use ubox_publisher.Demux.State.{
  Media, DemuxCaps, adpcm_swf, mpeg1_layer3, nellymoser, aac, alaw, mulaw, raw_audio, speex,
  flash_video, flash_screen, vp6_flash, vp6_alpha, h264, h265, h263, mpeg4_video, send_stream_start,
  set_caps, send, get_stream,
}
use ubox_publisher.Demux.Env.{Env}
use ubox_publisher.Demux.Send.{State, push_tags}

-- What the flags of an audio tag say.
pub record AudioFormat : Type 0 where
  pub codec_tag : ℕ
  pub rate : ℕ
  pub channels : ℕ
  pub width : ℕ

-- The caps for a codec: made, not to be made before the codec data is there, or unknown.
pub data CapsChoice : Type 0 where
  made : DemuxCaps → CapsChoice
  delayed unknown : CapsChoice

abbrev pub plain_caps : Media → DemuxCaps
plain_caps media = record {
  media = media;
  rate = none;
  channels = none;
  pixel_aspect_ratio = none;
  width = none;
  height = none;
  framerate = none;
  codec_data = none;
}

abbrev pub le32 : ℕ → Bytes
le32 n = n ∷ 0 ∷ 0 ∷ 0 ∷ []

abbrev pub concat : List Bytes → Bytes
concat [] = []
concat (bs ∷ bss) = bs ++ concat bss

-- The header of a Speex stream: 80 bytes with its magic, its version, and numbers in little endian.
unfoldable pub speex_header : Bytes
speex_header = concat (
    codes "Speex   "
    ∷ codes "1.1.12"
    ∷ (0 ∷ [])
    ∷ replicate 13 0
    ∷ le32 1
    ∷ le32 80
    ∷ (128 ∷ 62 ∷ 0 ∷ 0 ∷ [])
    ∷ le32 1
    ∷ le32 4
    ∷ le32 1
    ∷ replicate 4 255
    ∷ le32 80
    ∷ le32 0
    ∷ le32 1
    ∷ le32 0
    ∷ le32 0
    ∷ le32 0
    ∷ [])

-- What the AAC codec data says, if it says anything.
abbrev pub adjusted : ℕ → ℕ → ℕ
adjusted found given = if found == 0 then given else found

module _ (p : Platform) (e : Env p) where
  open e use {readers, neighbours}

  unfoldable pub aac_caps : Bytes → AudioFormat → DemuxCaps
  aac_caps data' f =
      let index = bit_and (readers.read_uint16_be (take 2 data')) 0x0780 / 128 in
      let rate =
        if leb 2 (length data') then adjusted (neighbours.aac_rate index) f.rate else f.rate in
      let channels =
        if leb 2 (length data')
        then adjusted (neighbours.aac_channels data') f.channels
        else f.channels in
      record (plain_caps aac) { rate = some rate; channels = some channels }

  abbrev pub with_format : Media → AudioFormat → CapsChoice
  with_format media f =
      made (record (plain_caps media) { rate = some f.rate; channels = some f.channels })

  unfoldable pub aac_choice : Option Bytes → AudioFormat → CapsChoice
  unfolding aac_caps
  aac_choice none f = delayed
  aac_choice (some data') f = made (aac_caps data' f)

  unfoldable pub audio_caps : Option Bytes → AudioFormat → CapsChoice
  unfolding aac_choice speex_header
  audio_caps codec_data f =
      let t = f.codec_tag in
      if t == 1
      then with_format adpcm_swf f
      else if (t == 2) || (t == 14)
      then with_format mpeg1_layer3 f
      else if (t == 0) || (t == 3)
      then with_format (raw_audio (not (f.width == 8)) f.width) f
      else if (t == 4) || (t == 5) || (t == 6)
      then with_format nellymoser f
      else if t == 10
      then aac_choice codec_data f
      else if t == 7
      then with_format alaw f
      else if t == 8
      then with_format mulaw f
      else if t == 11
      then with_format (speex speex_header neighbours.empty_comment) (record f { rate = 16000 })
      else unknown

  abbrev pub after_data : Option Bytes → Media → CapsChoice
  after_data none media = delayed
  after_data (some data') media = made (plain_caps media)

  unfoldable pub video_media : Option Bytes → ℕ → CapsChoice
  video_media codec_data t =
      if t == 2
      then made (plain_caps flash_video)
      else if t == 3
      then made (plain_caps flash_screen)
      else if t == 4
      then made (plain_caps vp6_flash)
      else if t == 5
      then made (plain_caps vp6_alpha)
      else if t == 7
      then after_data codec_data h264
      else if t == 12
      then after_data codec_data h265
      else if t == 8
      then made (plain_caps h263)
      else if t == 9
      then made (plain_caps mpeg4_video)
      else unknown

  abbrev pub nonzero : ℕ → Option ℕ
  nonzero n = if n == 0 then none else some n

  -- The caps with what the metadata said.
  unfoldable pub video_fields : State p e → DemuxCaps → DemuxCaps
  video_fields demux caps = record caps {
    pixel_aspect_ratio = if demux.got_par then some (demux.par_x, demux.par_y) else none;
    width = nonzero demux.w;
    height = nonzero demux.h;
    framerate =
        if neighbours.is_nonzero demux.framerate
        then some (neighbours.guess_framerate demux.framerate)
        else none;
  }

  unfoldable pub have_group_id : State p e → State p e
  have_group_id demux = elim (neighbours.sticky_group demux.sent) [
    | some group ↦ record demux { group_id = group }
    | none ↦ elim demux.group_id [
      | some id ↦ demux
      | none ↦ record demux { group_id = some (neighbours.group_id_next demux.sent) }
    ]
  ]

  abbrev pub start_stream : Kind → State p e → State p e
  start_stream kind demux = send (send_stream_start kind demux.group_id) demux

  abbrev pub put_caps : Kind → DemuxCaps → State p e → Bool × State p e
  put_caps kind caps demux =
      let put = send (set_caps kind caps) demux in (neighbours.caps_accepted put.sent, put)

  -- Caps for the pad, after a stream-start event if these are its first ones.
  abbrev pub replace_caps : Kind → DemuxCaps → Option DemuxCaps → State p e → Bool × State p e
  replace_caps kind caps none demux = put_caps kind caps (start_stream kind (have_group_id demux))
  replace_caps kind caps (some old) demux =
      if neighbours.caps_is_equal old caps then (true, demux) else put_caps kind caps demux

  unfoldable pub offer_caps : Kind → DemuxCaps → State p e → Bool × State p e
  unfolding have_group_id get_stream
  offer_caps kind caps demux =
      replace_caps kind (record caps { codec_data = (get_stream kind demux).codec_data })
        (neighbours.current_caps kind demux.sent) demux

  -- What is kept of a format that was negotiated; Speex is taken for mono.
  unfoldable pub store_audio : AudioFormat → State p e → State p e
  store_audio f demux = record demux {
    audio_stream = record demux.audio_stream { codec_tag = f.codec_tag };
    rate = f.rate;
    channels = if f.codec_tag == 11 then 1 else f.channels;
    width = f.width;
  }

  abbrev pub store_video : ℕ → State p e → State p e
  store_video codec_tag demux = record demux {
    video_stream = record demux.video_stream { codec_tag = codec_tag };
  }

  abbrev pub when_accepted : (State p e → State p e) → Bool × State p e → Bool × State p e
  when_accepted store (accepted, demux) =
      if accepted then (true, push_tags p e (store demux)) else (false, demux)

  unfoldable pub negotiate :
      Kind → CapsChoice → (State p e → State p e) → State p e → Bool × State p e
  unfolding offer_caps push_tags
  negotiate kind unknown store demux = (false, demux)
  negotiate kind delayed store demux = (true, store demux)
  negotiate kind (made caps) store demux = when_accepted store (offer_caps kind caps demux)

  unfoldable pub audio_negotiate : AudioFormat → State p e → Bool × State p e
  unfolding negotiate audio_caps store_audio
  audio_negotiate f demux =
      negotiate audio (audio_caps demux.audio_stream.codec_data f) (store_audio f) demux

  abbrev pub video_choice : State p e → CapsChoice → CapsChoice
  video_choice demux (made caps) = made (video_fields demux caps)
  video_choice demux delayed = delayed
  video_choice demux unknown = unknown

  unfoldable pub video_negotiate : ℕ → State p e → Bool × State p e
  unfolding negotiate video_fields video_media
  video_negotiate codec_tag demux =
      negotiate video (video_choice demux (video_media demux.video_stream.codec_data codec_tag))
        (store_video codec_tag) demux
