-- ===== src/Mux/Caps.antt =====
-- gst_flv_mux_video_pad_setcaps and gst_flv_mux_audio_pad_setcaps: from the caps of a sink pad to
-- the codec, rate, width and channels that a tag's first byte holds.
pub mod Fields
use ubox_publisher.Common.{
  ℕ, Bool, true, false, ◌&&◌, ◌||◌, Option, none, some, String, ◌==◌, if◌then◌else◌,
}
use ubox_publisher.Gst.Numbers.{ℤ, int_eq}
use ubox_publisher.Gst.Data.{Caps, Buffer}
use ubox_publisher.Mux.State.{MuxPad}
use text.Mathlib.Text.{◌==◌ as str_eq}

-- `gst_structure_get_int (s, f, &i) && i == k`
abbrev pub has_int : Option ℤ → ℕ → Bool
has_int none k = false
has_int (some i) k = int_eq i k

abbrev pub is_some {ℓ} : {A : Type ℓ} → Option A → Bool
is_some none = false
is_some (some a) = true

-- The codec id of a video stream.
unfoldable pub video_codec : String → Option ℕ
video_codec name =
    if str_eq name "video/x-flash-video"
    then some 2
    else if str_eq name "video/x-flash-screen"
    then some 3
    else if str_eq name "video/x-vp6-flash"
    then some 4
    else if str_eq name "video/x-vp6-alpha"
    then some 5
    else if str_eq name "video/x-h264"
    then some 7
    else if str_eq name "video/x-h265"
    then some 12
    else none

-- `gst_buffer_replace (&pad->codec_data, …)` where the caps have the field.
unfoldable pub replace_codec_data : Option Buffer → MuxPad → MuxPad
replace_codec_data none pad = pad
replace_codec_data (some b) pad = record pad { codec_data = some b }

unfoldable pub video_pad_setcaps : MuxPad → Caps → MuxPad × Bool
video_pad_setcaps pad caps = elim (video_codec caps.name) [
  | none ↦ (pad, false)
  | some c ↦ (replace_codec_data caps.codec_data (record pad { codec = c }), true)
]

-- MPEG audio: layer 3, with a codec id of its own at 8 kHz, or AAC.
unfoldable pub mpeg_codec : Caps → Option ℕ
mpeg_codec caps =
    if has_int caps.mpegversion 1
    then (if has_int caps.layer 3
        then (if has_int caps.rate 8000 then some 14 else some 2)
        else none)
    else if has_int caps.mpegversion 4 || has_int caps.mpegversion 2
    then some 10
    else none

unfoldable pub nellymoser_codec : Caps → ℕ
nellymoser_codec caps =
    if is_some caps.rate && is_some caps.channels
    then (if has_int caps.channels 1 && has_int caps.rate 16000
        then 4
        else if has_int caps.channels 1 && has_int caps.rate 8000
        then 5
        else 6)
    else 6

-- Raw audio sets the codec also where the sample width is then refused.
unfoldable pub raw_codec : Option ℕ → MuxPad → MuxPad × Bool
raw_codec none pad = (pad, false)
raw_codec (some w) pad =
    if w == 8
    then (record pad { codec = 3; width = 0 }, true)
    else if w == 16
    then (record pad { codec = 3; width = 1 }, true)
    else (record pad { codec = 3 }, false)

-- A codec, or `ret = FALSE`.
abbrev pub set_codec : Option ℕ → MuxPad → MuxPad × Bool
set_codec none pad = (pad, false)
set_codec (some c) pad = (record pad { codec = c }, true)

-- The first chain of tests, on the name.
unfoldable pub audio_codec : MuxPad → Caps → MuxPad × Bool
audio_codec pad caps =
    if str_eq caps.name "audio/x-adpcm"
    then elim caps.layout [
      | none ↦ (pad, false)
      | some l ↦ if str_eq l "swf" then set_codec (some 1) pad else (pad, false)
    ]
    else if str_eq caps.name "audio/mpeg"
    then set_codec (mpeg_codec caps) pad
    else if str_eq caps.name "audio/x-nellymoser"
    then set_codec (some (nellymoser_codec caps)) pad
    else if str_eq caps.name "audio/x-raw"
    then raw_codec caps.audio_info_width pad
    else if str_eq caps.name "audio/x-alaw"
    then set_codec (some 7) pad
    else if str_eq caps.name "audio/x-mulaw"
    then set_codec (some 8) pad
    else if str_eq caps.name "audio/x-speex"
    then set_codec (some 11) pad
    else (pad, false)

-- The value of `pad->rate`; `none` where the caps are refused and the field is left alone.
unfoldable pub audio_rate : ℕ → Option ℤ → Option ℕ
audio_rate codec none = if codec == 10 then some 3 else none
audio_rate codec (some rate) =
    if codec == 10
    then some 3
    else if int_eq rate 5512
    then some 0
    else if int_eq rate 11025
    then some 1
    else if int_eq rate 22050
    then some 2
    else if int_eq rate 44100
    then some 3
    else if int_eq rate 8000 && (codec == 5 || codec == 14 || codec == 7 || codec == 8)
    then some 0
    else if int_eq rate 16000 && (codec == 4 || codec == 11)
    then some 0
    else none

-- The value of `pad->channels`, likewise.
unfoldable pub audio_channels : ℕ → Option ℤ → Option ℕ
audio_channels codec none =
    if codec == 4 || codec == 5 || codec == 6 then some 0 else if codec == 10 then some 1 else none
audio_channels codec (some channels) =
    if codec == 4 || codec == 5 || codec == 6 || codec == 11
    then some 0
    else if codec == 10
    then some 1
    else if int_eq channels 1
    then some 0
    else if int_eq channels 2
    then some 1
    else none

abbrev pub set_rate : Option ℕ → MuxPad → MuxPad × Bool
set_rate none pad = (pad, false)
set_rate (some r) pad = (record pad { rate = r }, true)

abbrev pub set_channels : Option ℕ → MuxPad → MuxPad × Bool
set_channels none pad = (pad, false)
set_channels (some c) pad = (record pad { channels = c }, true)

abbrev pub set_width : MuxPad → MuxPad
set_width pad = if pad.codec == 3 then pad else record pad { width = 1 }

-- The second block: both tests are made, and the width is set, whatever they find.
unfoldable pub audio_format : MuxPad → Caps → MuxPad × Bool
audio_format pad caps =
    let (pad', rated) = set_rate (audio_rate pad.codec caps.rate) pad in
    let (pad'', counted) = set_channels (audio_channels pad'.codec caps.channels) pad' in
    (set_width pad'', rated && counted)

unfoldable pub audio_pad_setcaps : MuxPad → Caps → MuxPad × Bool
audio_pad_setcaps pad caps =
    let (coded, known) = audio_codec pad caps in
    if known
    then (let (formatted, fits) = audio_format coded caps in
        if fits then (replace_codec_data caps.codec_data formatted, true) else (formatted, false))
    else (coded, false)
