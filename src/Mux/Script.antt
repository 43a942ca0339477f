-- ===== src/Mux/Script.antt =====
-- The blocks that the file header and the metadata are made of: gst_flv_mux_create_header,
-- gst_flv_mux_preallocate_index, gst_flv_mux_create_number_script_value, and the string values of
-- gst_flv_mux_create_metadata.
use ubox_publisher.Common.{
  ℕ, ◌+◌, ◌-◌, ◌*◌, ◌/◌, ◌%◌, ◌<◌, ◌≡◌, ◌≢◌, refl, sym, ap, ◌∙◌, subst, Bool, true, false, not,
  Bool-cases, inl, inr, ==_iff, Option, none, some, bit_or, [], ◌∷◌, ◌++◌, append-nil, ◌==◌,
  if◌then◌else◌, u8, length, length-append, arith,
}
use mathlib.Core.Bool.{true≢false}
use ubox_publisher.Common.Memory.{Bytes, fill, fill_block, memset, length-memset, codes}
use ubox_publisher.Gst.Numbers.{max_uint, be16, be32}
use ubox_publisher.Gst.Platform.{Platform}
use ubox_publisher.Mux.State.{Mux, MuxPad}

-- MAX_INDEX_ENTRIES
abbrev pub max_index_entries : ℕ
max_index_entries = 128

abbrev pub preallocate_size : ℕ
preallocate_size = 11 + 8 + 22 + 10 + max_index_entries * 18

-- `mux->audio_pad && mux->audio_pad->codec != G_MAXUINT`
abbrev pub have_pad : Option MuxPad → Bool
have_pad none = false
have_pad (some pad) = not (pad.codec == max_uint)

abbrev pub header_flags : Bool → Bool → ℕ
header_flags have_audio have_video =
    bit_or (if have_audio then 4 else 0) (if have_video then 1 else 0)

-- The answer whether a pad is there and has its codec, which is not G_MAXUINT then.
abbrev pub IsCoded : Bool → Option MuxPad → Type 0
IsCoded true none = ⊥
IsCoded true (some pad) = pad.codec ≢ 4294967295
IsCoded false none = Unit {0}
IsCoded false (some pad) = pad.codec ≡ 4294967295

have_pad-IsCoded : (pad : Option MuxPad) → IsCoded (have_pad pad) pad
have_pad-IsCoded none = tt
have_pad-IsCoded (some pad) = elim (Bool-cases (pad.codec == max_uint)) [
  | inl e ↦ subst (λ b. IsCoded (not b) (some pad)) (sym e) ((==_iff pad.codec max_uint).0 e)
  | inr e ↦
      subst (λ b. IsCoded (not b) (some pad)) (sym e)
        (λ q. true≢false (sym ((==_iff pad.codec max_uint).1 q) ∙ e))
]

-- Bit 2 is for audio, and bit 0 for video.
abbrev pub coded_flags : Bool → Bool → ℕ
coded_flags true true = 5
coded_flags true false = 4
coded_flags false true = 1
coded_flags false false = 0

header_flags-coded_flags : (a v : Bool) → header_flags a v ≡ coded_flags a v
header_flags-coded_flags true true = refl
header_flags-coded_flags true false = refl
header_flags-coded_flags false true = refl
header_flags-coded_flags false false = refl

module _ (p : Platform) where
  open p use {Double, write_uint16_be, write_uint32_be, write_double_be, malloc}

  unfoldable pub create_header : Mux Double → Option Bytes
  create_header mux =
      fill
        ((0, b'F' ∷ [])
          ∷ (1, b'L' ∷ [])
          ∷ (2, b'V' ∷ [])
          ∷ (3, 1 ∷ [])
          ∷ (4, header_flags (have_pad mux.audio_pad) (have_pad mux.video_pad) ∷ [])
          ∷ (5, write_uint32_be 9)
          ∷ (9, write_uint32_be 0)
          ∷ [])
        (malloc 13)

  -- A filler of spaces, where the index goes later.
  unfoldable pub preallocate_index : Option Bytes
  preallocate_index =
      fill
        ((0, write_uint16_be 9)
          ∷ (2, codes "gstfiller")
          ∷ (11, 2 ∷ [])
          ∷ (12, write_uint16_be (preallocate_size - 14))
          ∷ (14, memset b' ' (preallocate_size - 14))
          ∷ [])
        (malloc preallocate_size)

  unfoldable pub create_number_script_value : Bytes → Double → Option Bytes
  create_number_script_value name value =
      let len = length name in
      fill
        ((0, write_uint16_be len)
          ∷ (2, name)
          ∷ (2 + len, 0 ∷ [])
          ∷ (2 + len + 1, write_double_be value)
          ∷ [])
        (malloc (2 + len + 1 + 8))

  -- A name of less than 256 bytes, with a string for its value.
  unfoldable pub create_string_script_value : Bytes → Bytes → Option Bytes
  create_string_script_value name value =
      let len = length name in
      fill
        ((0, 0 ∷ [])
          ∷ (1, u8 len ∷ [])
          ∷ (2, name)
          ∷ (2 + len, 2 ∷ [])
          ∷ (3 + len, length value / 256 % 256 ∷ [])
          ∷ (4 + len, length value % 256 ∷ [])
          ∷ (5 + len, value)
          ∷ [])
        (malloc (2 + len + 1 + 2 + length value))

-- What these blocks hold.
unfoldable pub flv_header : Bool → Bool → Bytes
flv_header have_audio have_video =
    codes "FLV" ++ (1 ∷ header_flags have_audio have_video ∷ (be32 9 ++ be32 0))

unfoldable pub filler : ℕ → Bytes
filler n = be16 9 ++ (codes "gstfiller" ++ (2 ∷ (be16 n ++ memset b' ' n)))

unfoldable pub string_value : Bytes → Bytes → Bytes
string_value name value = be16 (length name) ++ (name ++ (2 ∷ (be16 (length value) ++ value)))

module _ (p : Platform) where
  open p use {Double, write_double_be, write_uint16_be_lem, write_uint32_be_lem}

  unfoldable pub number_value : Bytes → Double → Bytes
  number_value name value = be16 (length name) ++ (name ++ (0 ∷ write_double_be value))

  pub create_header-flv_header :
      (mux : Mux Double)
      → create_header p mux ≡ some (flv_header (have_pad mux.audio_pad) (have_pad mux.video_pad))
  unfolding create_header flv_header
  create_header-flv_header mux =
      fill_block _ _ _ (simp write_uint32_be_lem (omega arith)) (simp write_uint32_be_lem)
        (p.length-malloc 13)

  -- The file header is written in full: the signature, version 1, flags that say whether there is an
  -- audio and a video pad with its codec, the size of the header, and no tag before the first.
  pub create_header-IsCoded :
      (mux : Mux Double)
      → (audio : Bool) × ((video : Bool) × (IsCoded audio mux.audio_pad
            × (IsCoded video mux.video_pad
                × (create_header p mux
                    ≡ some (
                        70
                        ∷ 76
                        ∷ 86
                        ∷ 1
                        ∷ coded_flags audio video
                        ∷ 0
                        ∷ 0
                        ∷ 0
                        ∷ 9
                        ∷ 0
                        ∷ 0
                        ∷ 0
                        ∷ 0
                        ∷ [])))))
  unfolding flv_header
  create_header-IsCoded mux = (
    have_pad mux.audio_pad,
    (
      have_pad mux.video_pad,
      (
        have_pad-IsCoded mux.audio_pad,
        (
          have_pad-IsCoded mux.video_pad,
          create_header-flv_header mux
              ∙ ap (λ n. some (70 ∷ 76 ∷ 86 ∷ 1 ∷ n ∷ 0 ∷ 0 ∷ 0 ∷ 9 ∷ 0 ∷ 0 ∷ 0 ∷ 0 ∷ []))
                  (header_flags-coded_flags (have_pad mux.audio_pad) (have_pad mux.video_pad)),
        ),
      ),
    ),
  )

  pub preallocate_index-filler : preallocate_index p ≡ some (filler (preallocate_size - 14))
  unfolding preallocate_index filler
  preallocate_index-filler =
      fill_block _ _ _ (simp write_uint16_be_lem (omega arith))
        (simp (write_uint16_be_lem, append-nil))
        (omega
          (arith, p.length-malloc preallocate_size, length-memset b' ' (preallocate_size - 14)))

  pub create_number_script_value-number_value :
      (name : Bytes) (value : Double)
      → create_number_script_value p name value ≡ some (number_value name value)
  unfolding create_number_script_value number_value
  create_number_script_value-number_value name value =
      fill_block _ _ _ (simp write_uint16_be_lem (omega arith))
        (simp (write_uint16_be_lem, append-nil))
        (omega (
          arith,
          p.length-malloc (2 + length name + 1 + 8),
          length-append name (0 ∷ write_double_be value),
          p.length-write_double_be value,
        ))

  pub create_string_script_value-string_value :
      (name value : Bytes)
      → length name < 256
      → create_string_script_value p name value ≡ some (string_value name value)
  unfolding create_string_script_value string_value
  create_string_script_value-string_value name value h =
      fill_block _ _ _ (omega arith)
        (let e : length name / 256 % 256 ≡ 0 = omega arith in rw (e, append-nil))
        (omega (
          arith,
          p.length-malloc (2 + length name + 1 + 2 + length value),
          length-append name (2 ∷ (be16 (length value) ++ value)),
        ))

  pub length-number_value :
      (name : Bytes) (value : Double) → length (number_value name value) ≡ length name + 11
  unfolding number_value
  length-number_value name value =
      omega (arith, length-append name (0 ∷ write_double_be value), p.length-write_double_be value)
