-- ===== src/Demux/Script/Reads.antt =====
-- What the reader gets where a number, a string or a double was written.
use ubox_publisher.Common.{
  ℕ, ◌+◌, ◌^◌, ◌<◌, ◌≡◌, refl, ap, ◌∙◌, subst, true, false, some, [], ◌∷◌, ◌++◌, ltb, leb, le→leb,
  length, length-append, take-append, drop-append, arith,
}
use ubox_publisher.Common.Memory.{Bytes}
use ubox_publisher.Gst.Numbers.{be16, be32}
use ubox_publisher.Gst.Platform.{Platform}
use ubox_publisher.Gst.Readers.{taken, byte_of}
use ubox_publisher.Demux.Env.{Env}
use ubox_publisher.Demux.Script.{get_string}

pub taken-append :
    {A : Type 0} (n : ℕ) (f : Bytes → A) (pre rest : Bytes)
    → length pre ≡ n
    → taken n f (pre ++ rest) ≡ some (f pre, rest)
taken-append n f pre rest h =
    let enough : leb (length pre) (length (pre ++ rest)) ≡ true =
      le→leb _ _ (omega (arith, length-append pre rest)) in
    subst (λ m. taken m f (pre ++ rest) ≡ some (f pre, rest)) h
      (rw (enough, take-append pre rest, drop-append pre rest) refl)

-- A string whose length fits, for which there is memory, and that is valid UTF-8.
abbrev pub IsReadable : (p : Platform) → Env p → Bytes → Type 0
IsReadable p e s =
    (length s < 2 ^ 16)
    × (e.readers.try_malloc0 (length s + 1) ≡ true)
    × (e.readers.utf8_validate s ≡ true)

module _ (p : Platform) (e : Env p) where
  open e use {readers}

  pub get_uint8-cons : (b : ℕ) (rest : Bytes) → readers.get_uint8 (b ∷ rest) ≡ some (b, rest)
  get_uint8-cons b rest =
      readers.get_uint8_lem (b ∷ rest) ∙ taken-append 1 byte_of (b ∷ []) rest refl

  pub get_uint32_be-be32 :
      (n : ℕ) (rest : Bytes) → n < 2 ^ 32 → readers.get_uint32_be (be32 n ++ rest) ≡ some (n, rest)
  get_uint32_be-be32 n rest h =
      readers.get_uint32_be_lem (be32 n ++ rest)
      ∙ taken-append 4 readers.read_uint32_be (be32 n) rest refl
      ∙ ap (λ k. some (k, rest)) (readers.read_uint32_be_lem _ _ _ _ ∙ omega arith)

  get_uint16_be-be16 :
      (n : ℕ) (rest : Bytes) → n < 2 ^ 16 → readers.get_uint16_be (be16 n ++ rest) ≡ some (n, rest)
  get_uint16_be-be16 n rest h =
      readers.get_uint16_be_lem (be16 n ++ rest)
      ∙ taken-append 2 readers.read_uint16_be (be16 n) rest refl
      ∙ ap (λ k. some (k, rest)) (readers.read_uint16_be_lem _ _ ∙ omega arith)

  pub get_float64_be-write_double_be :
      (d : p.Double) (rest : Bytes)
      → readers.get_float64_be (p.write_double_be d ++ rest) ≡ some (d, rest)
  get_float64_be-write_double_be d rest =
      readers.get_float64_be_lem (p.write_double_be d ++ rest)
      ∙ taken-append 8 readers.read_double_be (p.write_double_be d) rest
          (p.length-write_double_be d)
      ∙ ap (λ k. some (k, rest)) (readers.read_double_be-write_double_be d)

  -- FLV_GET_STRING reads back a length with a string behind it.
  pub get_string-be16 :
      (s rest : Bytes)
      → IsReadable p e s
      → get_string p e (be16 (length s) ++ (s ++ rest)) ≡ some (s, rest)
  unfolding get_string
  get_string-be16 s rest (short, there, valid) =
      let enough : ltb (length (s ++ rest)) (length s) ≡ false =
        ground (arith, length-append s rest) in
      let data_read : readers.get_data (length s) (s ++ rest) ≡ some (s, rest) =
        readers.get_data_lem (length s) (s ++ rest)
        ∙ taken-append (length s) (λ x. x) s rest refl in
      rw (get_uint16_be-be16 (length s) (s ++ rest) short, enough, there, data_read, valid) refl
