-- ===== src/Demux/Audio/Flags.antt =====
-- The format that the demuxer reads from the flags that the muxer writes.
use ubox_publisher.Common.{
  ℕ, ◌+◌, ◌*◌, ◌/◌, ◌%◌, ◌<◌, ◌≡◌, ◌≢◌, ◌∙◌, Bool, false, ◌||◌, some, ◌==◌, if◌then◌else◌, arith,
}
use ubox_publisher.Common.Bits.{bit_and_bit0, bit_and_bit1, bit_and_bits23}
use ubox_publisher.Gst.Numbers.{pos}
use ubox_publisher.Mux.State.{MuxPad}
use ubox_publisher.Mux.Caps.{audio_rate}
use ubox_publisher.Mux.Caps.Fields.{AudioFits, audio_flags-fields}
use ubox_publisher.Mux.Tag.{audio_flags}
use ubox_publisher.Demux.Audio.{audio_format}

-- The rate that a code stands for in the flags, and the codecs with a rate of their own.
abbrev pub coded_rate : ℕ → ℕ
coded_rate code =
    if code == 3 then 44100 else if code == 2 then 22050 else if code == 1 then 11025 else 5512

abbrev pub is_8khz : ℕ → Bool
is_8khz codec = (codec == 5) || (codec == 14) || (codec == 7) || (codec == 8)

abbrev pub is_16khz : ℕ → Bool
is_16khz codec = (codec == 4) || (codec == 11)

fields_read :
    (flags codec rate width channels : ℕ)
    → flags / 16 ≡ codec
    → flags / 4 % 4 ≡ rate
    → flags / 2 % 2 ≡ width
    → flags % 2 ≡ channels
    → flags < 256
    → ((audio_format flags).codec_tag ≡ codec)
      × ((audio_format flags).channels ≡ channels + 1)
      × ((audio_format flags).width ≡ 8 + 8 * width)
      × ((audio_format flags).rate
          ≡ (if is_8khz codec then 8000 else if is_16khz codec then 16000 else coded_rate rate))
unfolding audio_format
fields_read flags codec rate width channels hc hr hw hch h =
    let b0 = bit_and_bit0 flags h in
    let b1 = bit_and_bit1 flags h in
    let b23 = bit_and_bits23 flags h in
    (hc, rw (b0, hch) (ground arith), rw (b1, hw) (ground arith), rw (b23, hc, hr) (ground arith))

-- Where the fields of a pad fit, the demuxer reads from the flags of the muxer the pad's codec, one
-- channel or two, a width of 8 bits or of 16, and the rate of the code or of the codec.
pub audio_format-audio_flags :
    (pad : MuxPad)
    → AudioFits pad
    → ((audio_format (audio_flags pad)).codec_tag ≡ pad.codec)
      × ((audio_format (audio_flags pad)).channels ≡ pad.channels + 1)
      × ((audio_format (audio_flags pad)).width ≡ 8 + 8 * pad.width)
      × ((audio_format (audio_flags pad)).rate ≡ (
          if is_8khz pad.codec
          then 8000
          else if is_16khz pad.codec
          then 16000
          else coded_rate pad.rate))
audio_format-audio_flags pad fits =
    let (c, r, w, h, lt) = audio_flags-fields pad fits in
    fields_read (audio_flags pad) pad.codec pad.rate pad.width pad.channels c r w h lt

coded_rate-audio_rate :
    (codec rate code : ℕ)
    → codec ≢ 10
    → is_8khz codec ≡ false
    → is_16khz codec ≡ false
    → audio_rate codec (some (pos rate)) ≡ some code
    → coded_rate code ≡ rate
unfolding audio_rate
coded_rate-audio_rate codec rate code h h8 h16 e = ground arith

-- A rate that gst_flv_mux_audio_pad_setcaps accepts for a codec without a rate of its own is the rate
-- that the demuxer reads from the flags.
pub audio_format_rate :
    (pad : MuxPad) (rate : ℕ)
    → AudioFits pad
    → pad.codec ≢ 10
    → is_8khz pad.codec ≡ false
    → is_16khz pad.codec ≡ false
    → audio_rate pad.codec (some (pos rate)) ≡ some pad.rate
    → (audio_format (audio_flags pad)).rate ≡ rate
audio_format_rate pad rate fits h h8 h16 e =
    let (c, ch, w, r) = audio_format-audio_flags pad fits in
    let coded = coded_rate-audio_rate pad.codec rate pad.rate h h8 h16 e in r ∙ rw (h8, h16) coded
