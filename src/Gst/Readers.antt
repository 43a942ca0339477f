-- ===== src/Gst/Readers.antt =====
-- Reading bytes: the GST_READ macros, GstByteReader, and conversions of GLib.
use ubox_publisher.Common.{
  ℕ, ◌+◌, ◌*◌, ◌<◌, ◌≡◌, Bool, true, Option, none, some, [], ◌∷◌, if◌then◌else◌, leb, length, take,
  drop, All,
}
use ubox_publisher.Common.Memory.{Bytes}
use ubox_publisher.Gst.Platform.{Platform}

abbrev pub byte_of : Bytes → ℕ
byte_of [] = 0
byte_of (b ∷ bs) = b

-- What a reader with the bytes `bs` left gets from the next `n` of them, and what is left then.
abbrev pub taken : {A : Type 0} → ℕ → (Bytes → A) → Bytes → Option (A × Bytes)
taken n f bs = if leb n (length bs) then some (f (take n bs), drop n bs) else none

pub record Readers (p : Platform) : Type 0 where
  -- GST_READ_UINT16_BE and its kin, on the bytes at the pointer
  pub read_uint16_be : Bytes → ℕ
  pub read_uint24_be : Bytes → ℕ
  pub read_uint32_be : Bytes → ℕ
  pub read_uint16_be_lem : (a b : ℕ) → read_uint16_be (a ∷ b ∷ []) ≡ a * 256 + b
  pub read_uint24_be_lem : (a b c : ℕ) → read_uint24_be (a ∷ b ∷ c ∷ []) ≡ a * 65536 + b * 256 + c
  pub read_uint32_be_lem :
      (a b c d : ℕ) → read_uint32_be (a ∷ b ∷ c ∷ d ∷ []) ≡ a * 16777216 + b * 65536 + c * 256 + d
  -- the double in eight bytes
  pub read_double_be : Bytes → p.Double
  pub read_double_be-write_double_be : (d : p.Double) → read_double_be (p.write_double_be d) ≡ d
  -- gst_byte_reader_get_uint8 and its kin; a reader is the bytes that it has left
  pub get_uint8 : Bytes → Option (ℕ × Bytes)
  pub get_uint16_be : Bytes → Option (ℕ × Bytes)
  pub get_uint32_be : Bytes → Option (ℕ × Bytes)
  pub get_float64_be : Bytes → Option (p.Double × Bytes)
  pub get_data : ℕ → Bytes → Option (Bytes × Bytes)
  pub get_uint8_lem : (bs : Bytes) → get_uint8 bs ≡ taken 1 byte_of bs
  pub get_uint16_be_lem : (bs : Bytes) → get_uint16_be bs ≡ taken 2 read_uint16_be bs
  pub get_uint32_be_lem : (bs : Bytes) → get_uint32_be bs ≡ taken 4 read_uint32_be bs
  pub get_float64_be_lem : (bs : Bytes) → get_float64_be bs ≡ taken 8 read_double_be bs
  pub get_data_lem : (n : ℕ) (bs : Bytes) → get_data n bs ≡ taken n (λ x. x) bs
  -- whether g_try_malloc0 finds the memory
  pub try_malloc0 : ℕ → Bool
  -- g_utf8_validate with a length, which refuses a NUL
  pub utf8_validate : Bytes → Bool
  pub utf8_validate_ascii : (s : Bytes) → All (λ c. (0 < c) × (c < 128)) s → utf8_validate s ≡ true
  -- gdouble to a guint64, a guint32 and a guint; `d * GST_SECOND` and `d * 1024` likewise
  pub double_to_uint64 : p.Double → ℕ
  pub double_to_uint32 : p.Double → ℕ
  pub times_second : p.Double → ℕ
  pub times_1024 : p.Double → ℕ
