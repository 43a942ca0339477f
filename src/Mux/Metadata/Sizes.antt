-- ===== src/Mux/Metadata/Sizes.antt =====
-- The frame of the metadata: what is written before the first value and behind the last one.
use ubox_publisher.Common.{
  ℕ, ◌+◌, ◌-◌, ◌/◌, ◌%◌, ◌<◌, ◌≡◌, refl, ◌∙◌, true, false, none, some, List, [], ◌∷◌, ◌++◌,
  append_assoc, length, length-append, arith, ◌==◌,
}
use ubox_publisher.Common.Memory.{Bytes, Store, fill, fill_block, fill-Follows, fill-append, codes}
use ubox_publisher.Gst.Numbers.{be24, be32}
use ubox_publisher.Gst.Platform.{Platform}
use ubox_publisher.Mux.Metadata.{
  header_stores, name_stores, array_stores, marker_stores, size_stores, patch_stores, Script,
  script_head, finish_script,
}

-- The 29 bytes before the first value, for a data size and a count of values.
unfoldable pub meta_head : ℕ → ℕ → Bytes
meta_head size n =
    18
    ∷ (be24 size ++ (0 ∷ 0 ∷ 0 ∷ 0 ∷ 0 ∷ 0 ∷ 0 ∷ 2 ∷ 0 ∷ 10 ∷ (codes "onMetaData" ++ (8 ∷ be32 n))))

-- A script tag with the values `rest`, of which it counts `n`.
unfoldable pub script_tag : ℕ → Bytes → Bytes
script_tag n rest =
    meta_head (length rest + 21) n ++ (rest ++ (0 ∷ 0 ∷ 9 ∷ be32 (length rest + 32)))

module _ (p : Platform) where
  open p use {Double, write_uint32_be_lem}

  pub script_head-meta_head : (n : ℕ) → script_head p n ≡ some (meta_head 0 n)
  unfolding script_head meta_head
  script_head-meta_head n =
      let tag =
        fill_block header_stores (p.malloc 11) (18 ∷ 0 ∷ 0 ∷ 0 ∷ 0 ∷ 0 ∷ 0 ∷ 0 ∷ 0 ∷ 0 ∷ 0 ∷ [])
          (omega arith) refl (p.length-malloc 11) in
      let name =
        fill_block name_stores (p.malloc 13) (2 ∷ 0 ∷ 10 ∷ codes "onMetaData") (omega arith) refl
          (p.length-malloc 13) in
      let array =
        fill_block (array_stores p n) (p.malloc 5) (8 ∷ be32 n) (omega arith)
          (simp write_uint32_be_lem) (p.length-malloc 5) in
      rw (tag, name, array)

  marker_lem : fill marker_stores (p.malloc 3) ≡ some (0 ∷ 0 ∷ 9 ∷ [])
  marker_lem = fill_block marker_stores _ (0 ∷ 0 ∷ 9 ∷ []) (omega arith) refl (p.length-malloc 3)

  size_lem : (n : ℕ) → fill (size_stores p n) (p.malloc 4) ≡ some (be32 n)
  size_lem n =
      fill_block (size_stores p n) _ (be32 n) (omega arith) (simp write_uint32_be_lem)
        (p.length-malloc 4)

  -- The sizes and the count go over the zeros and the first count of the head.
  patch_lem :
      (size w n : ℕ) (rest : Bytes)
      → fill (patch_stores p size w) (meta_head 0 n ++ rest) ≡ some (meta_head size w ++ rest)
  unfolding meta_head
  patch_lem size w n rest =
      let three : List Store =
        (1, size / 65536 % 256 ∷ []) ∷ (2, size / 256 % 256 ∷ []) ∷ (3, size % 256 ∷ []) ∷ [] in
      let post : Bytes =
        0 ∷ 0 ∷ 0 ∷ 0 ∷ 0 ∷ 0 ∷ 0 ∷ 2 ∷ 0 ∷ 10 ∷ (codes "onMetaData" ++ (8 ∷ be32 n)) ++ rest in
      let front : Bytes =
        18
        ∷ (be24 size
            ++ (0 ∷ 0 ∷ 0 ∷ 0 ∷ 0 ∷ 0 ∷ 0 ∷ 2 ∷ 0 ∷ 10 ∷ (codes "onMetaData" ++ (8 ∷ [])))) in
      fill-append three ((25, p.write_uint32_be w) ∷ []) (meta_head 0 n ++ rest) _
        (fill-Follows three 1 (18 ∷ []) (0 ∷ 0 ∷ 0 ∷ []) post refl (omega arith) refl)
      ∙ rw write_uint32_be_lem
          (fill-Follows ((25, be32 w) ∷ []) 25 front (be32 n) rest refl (omega arith) refl)

  pub length-meta_head : (size n : ℕ) → length (meta_head size n) ≡ 29
  unfolding meta_head
  length-meta_head size n = refl

  -- The last step writes the sizes and the count, and behind the tag its size.
  pub finish_script-script_tag :
      (s : Script) (n : ℕ) (rest : Bytes)
      → s.bytes ≡ meta_head 0 n ++ rest
      → 0 < s.written
      → finish_script p s ≡ some (some (script_tag s.written rest))
  unfolding finish_script script_tag
  finish_script-script_tag s n rest b w =
      let head = meta_head 0 n in
      let marker : Bytes = 0 ∷ 0 ∷ 9 ∷ [] in
      let size : Bytes = be32 (length rest + 32) in
      let nonzero : (s.written == 0) ≡ false = ground arith in
      let tag_size : length ((head ++ rest) ++ marker) ≡ length rest + 32 = omega (
        arith,
        length-append (head ++ rest) marker,
        length-append head rest,
        length-meta_head 0 n,
      ) in
      let regroup : ((head ++ rest) ++ marker) ++ size ≡ head ++ (rest ++ (marker ++ size)) =
        append_assoc (head ++ rest) marker size ∙ append_assoc head rest (marker ++ size) in
      let data_size : length (head ++ (rest ++ (marker ++ size))) - 11 - 4 ≡ length rest + 21 =
        omega (
          arith,
          length-append head (rest ++ (marker ++ size)),
          length-append rest (marker ++ size),
          length-meta_head 0 n,
        ) in
      rw (nonzero, marker_lem, size_lem, b, tag_size, regroup, data_size, patch_lem)

  pub finish_script-none : (s : Script) → (s.written == 0) ≡ true → finish_script p s ≡ some none
  unfolding finish_script
  finish_script-none s z = rw z
