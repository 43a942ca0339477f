-- ===== src/Mux/Index/Fit.antt =====
-- What gst_flv_mux_rewrite_header writes for the index takes the space of the filler exactly.
use ubox_publisher.Common.{
  ℕ, ◌+◌, ◌-◌, ◌*◌, ◌^◌, ◌≤◌, ◌<◌, ◌≡◌, some, List, [], ◌∷◌, ◌++◌, append-nil, if◌then◌else◌, ltb,
  length, length-append, arith,
}
use ubox_publisher.Common.Memory.{Bytes, fill_block, codes}
use ubox_publisher.Gst.Numbers.{be16}
use ubox_publisher.Gst.Platform.{Platform}
use ubox_publisher.Mux.State.{IndexEntry}
use ubox_publisher.Mux.Script.{max_index_entries, preallocate_size}
use ubox_publisher.Mux.Index.{index_skip, index_len, filler_block, index_with_filler}
use ubox_publisher.Mux.Index.Count.{picked, length-picked_all, index_len-le}
use ubox_publisher.Mux.Index.Layout.{keyframes, length-keyframes, index_block-keyframes}

-- The key of a filler of `n` spaces.
unfoldable pub filler_key : ℕ → Bytes
filler_key n = be16 9 ++ (codes "gstfiller" ++ (2 ∷ be16 n))

-- The spaces that stay behind an index of `len` entries, and the key before them.
unfoldable pub spaces_left : ℕ → ℕ
spaces_left len = if ltb len max_index_entries then (max_index_entries - len) * 18 - 14 else 0

unfoldable pub filler_rest : ℕ → Bytes
unfolding filler_key
filler_rest len =
    if ltb len max_index_entries then filler_key ((max_index_entries - len) * 18 - 14) else []

module _ (p : Platform) where
  open p use {Double, write_uint16_be_lem}

  filler_block-filler_key :
      (len : ℕ) → filler_block p len ≡ some (filler_key ((max_index_entries - len) * 18 - 14))
  unfolding filler_block filler_key
  filler_block-filler_key len =
      fill_block _ _ _ (simp write_uint16_be_lem (omega arith))
        (simp (write_uint16_be_lem, append-nil)) (p.length-malloc 14)

  module _ (entries : List (IndexEntry Double)) (few : length entries < 2 ^ 31) where
    abbrev chosen : List (IndexEntry Double)
    chosen = picked (index_skip (length entries)) 0 entries

    abbrev len : ℕ
    len = index_len (length entries)

    index_with_filler-keyframes :
        index_with_filler p entries ≡ some (keyframes p chosen ++ filler_rest len)
    unfolding index_with_filler filler_rest
    index_with_filler-keyframes = ground (
      arith,
      index_block-keyframes p entries few,
      filler_block-filler_key len,
      append-nil (keyframes p chosen),
    )

    length-keyframes_filler :
        length (keyframes p chosen ++ filler_rest len) + spaces_left len ≡ preallocate_size
    unfolding filler_rest spaces_left filler_key
    length-keyframes_filler = ground (
      arith,
      length-append (keyframes p chosen) (filler_rest len),
      length-keyframes p chosen,
      length-picked_all entries few,
      index_len-le (length entries) few,
    )

  -- For an index of fewer than 2 ^ 31 entries, the block for the index is written without a store
  -- outside of it. It holds the keyframes object over every `index_skip`-th entry, of which there
  -- are `index_len` and at most 128, and then the key of a filler if there are fewer than 128.
  -- Together with the spaces that the filler claims it is as long as the preallocated space.
  pub index_with_filler_fits :
      (entries : List (IndexEntry Double))
      → length entries < 2 ^ 31
      → (index_with_filler p entries
          ≡ some (
              keyframes p (picked (index_skip (length entries)) 0 entries)
              ++ filler_rest (index_len (length entries))))
        × (length (picked (index_skip (length entries)) 0 entries) ≡ index_len (length entries))
        × (index_len (length entries) ≤ max_index_entries)
        × (length (
                keyframes p (picked (index_skip (length entries)) 0 entries)
                ++ filler_rest (index_len (length entries)))
              + spaces_left (index_len (length entries))
            ≡ preallocate_size)
  index_with_filler_fits entries few = (
    index_with_filler-keyframes entries few,
    length-picked_all entries few,
    index_len-le (length entries) few,
    length-keyframes_filler entries few,
  )
