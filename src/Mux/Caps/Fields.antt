-- ===== src/Mux/Caps/Fields.antt =====
-- What accepted caps leave in a pad, and what the tags' first byte makes of it.
use ubox_publisher.Common.{
  ℕ, ◌/◌, ◌%◌, ◌<◌, ◌≡◌, ◌≢◌, refl, if◌then◌else◌, String, Bool, true, false, Option, some, none,
  arith, Bool-cases, inl, inr, ◌&&◌,
}
use ubox_publisher.Common.Bits.{or_fields_sum, or_nibbles_sum}
use ubox_publisher.Gst.Numbers.{ℤ}
use ubox_publisher.Gst.Data.{Caps, Buffer}
use ubox_publisher.Mux.State.{MuxPad}
use ubox_publisher.Mux.Caps.{
  mpeg_codec, nellymoser_codec, raw_codec, set_codec, set_rate, set_channels, set_width,
  audio_codec, audio_rate, audio_channels, audio_format, audio_pad_setcaps, replace_codec_data,
}
use text.Mathlib.Text.{◌==◌ as str_eq}
use ubox_publisher.Mux.Tag.{audio_flags, video_flags}

-- The audio fields fit into the bits that the first byte of a tag has for them.
pub record AudioFits (pad : MuxPad) : Type 0 where
  pub codec_fits : pad.codec < 16
  pub rate_fits : pad.rate < 4
  pub width_fits : pad.width < 2
  pub channels_fits : pad.channels < 2

-- What the first chain of tests leaves, if it does not refuse the caps.
abbrev Known : MuxPad × Bool → Type 0
Known r = r.1 ≡ true → (r.0.codec < 16) × (r.0.codec ≡ 3 → r.0.width < 2)

Known-if : (b : Bool) (r s : MuxPad × Bool) → Known r → Known s → Known (if b then r else s)
Known-if true r s kr ks = kr
Known-if false r s kr ks = ks

Known-refused : (pad : MuxPad) → Known (pad, false)
Known-refused pad h = cc

Known-set_codec :
    (o : Option ℕ) (pad : MuxPad)
    → ((c : ℕ) → o ≡ some c → (c < 16) × (c ≢ 3))
    → Known (set_codec o pad)
Known-set_codec none pad small h = cc
Known-set_codec (some c) pad small h = let (lt, ne) = small c refl in (lt, λ e. absurd (ne e))

Known-constant : (c : ℕ) (pad : MuxPad) → c < 16 → c ≢ 3 → Known (set_codec (some c) pad)
Known-constant c pad lt ne = λ h. (lt, λ e. absurd (ne e))

Known-raw_codec : (w : Option ℕ) (pad : MuxPad) → Known (raw_codec w pad)
unfolding raw_codec
Known-raw_codec w pad h = ground arith

Known-adpcm :
    (layout : Option String) (pad : MuxPad)
    → Known (elim layout [
      | none ↦ (pad, false)
      | some l ↦ if str_eq l "swf" then set_codec (some 1) pad else (pad, false)
    ])
Known-adpcm none pad = Known-refused pad
Known-adpcm (some l) pad =
    Known-if (str_eq l "swf") _ _ (Known-constant 1 pad (omega arith) (omega arith))
      (Known-refused pad)

mpeg_codec-lt : (caps : Caps) (c : ℕ) → mpeg_codec caps ≡ some c → (c < 16) × (c ≢ 3)
unfolding mpeg_codec
mpeg_codec-lt caps c h = ground arith

nellymoser_codec-lt : (caps : Caps) → (nellymoser_codec caps < 16) × (nellymoser_codec caps ≢ 3)
unfolding nellymoser_codec
nellymoser_codec-lt caps = ground arith

Known-audio_codec : (pad : MuxPad) (caps : Caps) → Known (audio_codec pad caps)
unfolding audio_codec
Known-audio_codec pad caps =
    let (lt, ne) = nellymoser_codec-lt caps in
    Known-if _ _ _ (Known-adpcm caps.layout pad) (
      Known-if _ _ _ (Known-set_codec (mpeg_codec caps) pad (mpeg_codec-lt caps)) (
        Known-if _ _ _ (Known-constant (nellymoser_codec caps) pad lt ne) (
          Known-if _ _ _ (Known-raw_codec caps.audio_info_width pad) (
            Known-if _ _ _ (Known-constant 7 pad (omega arith) (omega arith)) (
              Known-if _ _ _ (Known-constant 8 pad (omega arith) (omega arith)) (
                Known-if _ _ _ (Known-constant 11 pad (omega arith) (omega arith))
                  (Known-refused pad)))))))

audio_rate-lt : (codec : ℕ) (rate : Option ℤ) (r : ℕ) → audio_rate codec rate ≡ some r → r < 4
unfolding audio_rate
audio_rate-lt codec none r h = ground arith
audio_rate-lt codec (some i) r h = ground arith

audio_channels-lt :
    (codec : ℕ) (channels : Option ℤ) (c : ℕ) → audio_channels codec channels ≡ some c → c < 2
unfolding audio_channels
audio_channels-lt codec none c h = ground arith
audio_channels-lt codec (some i) c h = ground arith

set_format-AudioFits :
    (pad : MuxPad) (rate channels : Option ℕ)
    → pad.codec < 16
    → (pad.codec ≡ 3 → pad.width < 2)
    → ((r : ℕ) → rate ≡ some r → r < 4)
    → ((c : ℕ) → channels ≡ some c → c < 2)
    → ((set_rate rate pad).1 && (set_channels channels (set_rate rate pad).0).1) ≡ true
    → AudioFits (set_width (set_channels channels (set_rate rate pad).0).0)
set_format-AudioFits pad none channels h w hr hc fits = cc
set_format-AudioFits pad (some r) none h w hr hc fits = cc
set_format-AudioFits pad (some r) (some c) h w hr hc fits = ground (arith, hr r refl, hc c refl)

-- The second block, given what the first one leaves.
audio_format-AudioFits :
    (pad : MuxPad) (caps : Caps)
    → pad.codec < 16
    → (pad.codec ≡ 3 → pad.width < 2)
    → (audio_format pad caps).1 ≡ true
    → AudioFits (audio_format pad caps).0
unfolding audio_format
audio_format-AudioFits pad caps h w fits =
    set_format-AudioFits pad (audio_rate pad.codec caps.rate) _ h w
      (audio_rate-lt pad.codec caps.rate) (audio_channels-lt _ caps.channels) fits

replace_codec_data-AudioFits :
    (o : Option Buffer) (pad : MuxPad) → AudioFits pad → AudioFits (replace_codec_data o pad)
unfolding replace_codec_data
replace_codec_data-AudioFits none pad f = f
replace_codec_data-AudioFits (some b) pad f = omega arith

-- Caps that gst_flv_mux_audio_pad_setcaps accepts leave a codec below 16, a rate below 4, and a
-- width and channels below 2 in the pad, whatever it held before.
pub audio_pad_setcaps-AudioFits :
    (pad : MuxPad) (caps : Caps)
    → (audio_pad_setcaps pad caps).1 ≡ true
    → AudioFits (audio_pad_setcaps pad caps).0
unfolding audio_pad_setcaps
audio_pad_setcaps-AudioFits pad caps h = elim (Bool-cases (audio_codec pad caps).1) [
  | inr e ↦ ground arith
  | inl e ↦ elim (Bool-cases (audio_format (audio_codec pad caps).0 caps).1) [
    | inr f ↦ ground arith
    | inl f ↦
        let (lt, w) = Known-audio_codec pad caps e in
        rw (e, f)
          (replace_codec_data-AudioFits caps.codec_data _ (audio_format-AudioFits _ caps lt w f))
  ]
]

-- Where the fields fit, the first byte of an audio tag's data holds each of them in its bits.
pub audio_flags-fields :
    (pad : MuxPad)
    → AudioFits pad
    → (audio_flags pad / 16 ≡ pad.codec)
      × (audio_flags pad / 4 % 4 ≡ pad.rate)
      × (audio_flags pad / 2 % 2 ≡ pad.width)
      × (audio_flags pad % 2 ≡ pad.channels)
      × (audio_flags pad < 256)
audio_flags-fields pad f = omega (
  arith,
  or_fields_sum (pad.codec % 16) (pad.rate % 4) (pad.width % 2) (pad.channels % 2) (omega arith)
      (omega arith) (omega arith) (omega arith),
)

-- The first byte of a video tag's data holds the frame type, 1 for a keyframe and 2 for another,
-- and the low four bits of the codec.
pub video_flags-fields :
    (delta : Bool) (codec : ℕ)
    → (video_flags delta codec / 16 ≡ (if delta then 2 else 1))
      × (video_flags delta codec % 16 ≡ codec % 16)
      × (video_flags delta codec < 256)
video_flags-fields delta codec =
    ground (arith, or_nibbles_sum (if delta then 2 else 1) (codec % 16))
