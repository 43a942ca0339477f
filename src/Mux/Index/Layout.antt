-- ===== src/Mux/Index/Layout.antt =====
-- The stores of the index follow one another, and what they hold is the index that players read.
use ubox_publisher.Common.{
  ℕ, ◌+◌, ◌*◌, ◌%◌, ◌^◌, ◌<◌, ◌≡◌, refl, ap, Bool-cases, inl, inr, some, List, [], ◌∷◌, ◌++◌,
  append-nil, ◌==◌, u32, length, length-append, arith,
}
use ubox_publisher.Common.Memory.{
  Bytes, joined, joined-append, Follows, Follows-append, fill_block, codes,
}
use ubox_publisher.Gst.Numbers.{be16, be24, be32}
use ubox_publisher.Gst.Platform.{Platform}
use ubox_publisher.Mux.State.{IndexEntry}
use ubox_publisher.Mux.Index.{
  index_skip, index_len, entry_stores, entries_end, times_stores, positions_stores, index_stores,
  index_block,
}
use ubox_publisher.Mux.Index.Count.{picked, length-picked_all, index_len-le}

module _ (p : Platform) where
  open p use {
    Double, write_double_be, write_uint16_be_lem, write_uint24_be_lem, write_uint32_be_lem,
  }

  -- A strict array's values: each a marker and a double.
  unfoldable pub values : (IndexEntry Double → Double) → List (IndexEntry Double) → Bytes
  values f [] = []
  values f (e ∷ es) = 0 ∷ (write_double_be (f e) ++ values f es)

  pub length-values :
      (f : IndexEntry Double → Double) (es : List (IndexEntry Double))
      → length (values f es) ≡ 9 * length es
  unfolding values
  length-values f [] = omega arith
  length-values f (e ∷ es) = omega (
    arith,
    length-values f es,
    length-append (write_double_be (f e)) (values f es),
    p.length-write_double_be (f e),
  )

  module _ (f : IndexEntry Double → Double) (skip : ℕ) where
    joined-entry_stores :
        (i off : ℕ) (es : List (IndexEntry Double))
        → joined (entry_stores p f skip i off es) ≡ values f (picked skip i es)
    unfolding entry_stores values picked
    joined-entry_stores i off [] = refl
    joined-entry_stores i off (e ∷ es) = elim (Bool-cases (i % skip == 0)) [
      | inl t ↦
          rw t
            (ap (λ x. 0 ∷ (write_double_be (f e) ++ x)) (joined-entry_stores (i + 1) (off + 9) es))
      | inr t ↦ rw t (joined-entry_stores (i + 1) off es)
    ]

    Follows-entry_stores :
        (i off : ℕ) (es : List (IndexEntry Double)) → Follows off (entry_stores p f skip i off es)
    unfolding entry_stores
    Follows-entry_stores i off [] = tt
    Follows-entry_stores i off (e ∷ es) = elim (Bool-cases (i % skip == 0)) [
      | inl t ↦
          let nine : off + 1 + length (write_double_be (f e)) ≡ off + 9 =
            omega (arith, p.length-write_double_be (f e)) in
          rw t (refl, (refl, rw nine (Follows-entry_stores (i + 1) (off + 9) es)))
      | inr t ↦ rw t (Follows-entry_stores (i + 1) off es)
    ]

    entries_end-picked :
        (i off : ℕ) (es : List (IndexEntry Double))
        → entries_end p skip i off es ≡ off + 9 * length (picked skip i es)
    unfolding entries_end picked
    entries_end-picked i off [] = omega arith
    entries_end-picked i off (e ∷ es) = elim (Bool-cases (i % skip == 0)) [
      | inl t ↦ rw t (omega (arith, entries_end-picked (i + 1) (off + 9) es))
      | inr t ↦ rw t (omega (arith, entries_end-picked (i + 1) off es))
    ]

unfoldable pub times_head : ℕ → Bytes
times_head len =
    be16 9
    ++ (codes "keyframes" ++ (8 ∷ (be32 2 ++ (be16 5 ++ (codes "times" ++ (10 ∷ be32 len))))))

unfoldable pub positions_head : ℕ → Bytes
positions_head len = be16 13 ++ (codes "filepositions" ++ (10 ∷ be32 len))

module _ (p : Platform) where
  open p use {Double, write_uint16_be_lem, write_uint24_be_lem, write_uint32_be_lem}

  -- An array of times and an array of positions, under the key `keyframes`.
  unfoldable pub keyframes : List (IndexEntry Double) → Bytes
  keyframes es =
      times_head (length es)
      ++ (values p (λ e. e.time) es
          ++ (positions_head (length es) ++ (values p (λ e. e.position) es ++ be24 9)))

  pub length-keyframes :
      (es : List (IndexEntry Double)) → length (keyframes es) ≡ 11 + 8 + 22 + 10 + length es * 18
  unfolding keyframes times_head positions_head
  length-keyframes es = omega (
    arith,
    length-append (values p (λ e. e.time) es)
        (positions_head (length es) ++ (values p (λ e. e.position) es ++ be24 9)),
    length-append (values p (λ e. e.position) es) (be24 9),
    length-values p (λ e. e.time) es,
    length-values p (λ e. e.position) es,
  )

  entries_end-joined :
      (f : IndexEntry Double → Double) (skip off : ℕ) (entries : List (IndexEntry Double))
      → entries_end p skip 0 off entries
        ≡ off + length (joined (entry_stores p f skip 0 off entries))
  entries_end-joined f skip off entries = rw joined-entry_stores (
      omega (
        arith,
        entries_end-picked p f skip 0 off entries,
        length-values p f (picked skip 0 entries),
      ))

  joined-index_stores :
      (skip len : ℕ) (entries : List (IndexEntry Double))
      → length (picked skip 0 entries) ≡ len
      → joined (index_stores p skip len entries) ≡ keyframes (picked skip 0 entries)
  unfolding index_stores times_stores positions_stores keyframes times_head positions_head
  joined-index_stores skip len entries e = simp (
    joined-append, joined-entry_stores, append-nil, write_uint16_be_lem, write_uint24_be_lem,
    write_uint32_be_lem, e,
  )

  Follows-times_stores :
      (len : ℕ) → Follows 0 (times_stores p len) × (length (joined (times_stores p len)) ≡ 28)
  unfolding times_stores
  Follows-times_stores len = simp (write_uint16_be_lem, write_uint32_be_lem) (omega arith)

  Follows-positions_stores :
      (off len : ℕ)
      → Follows off (positions_stores p off len)
        × (length (joined (positions_stores p off len)) ≡ 20)
  unfolding positions_stores
  Follows-positions_stores off len = simp (write_uint16_be_lem, write_uint32_be_lem) (omega arith)

  -- Where the times end is where the second key starts, and where the positions end the end marker.
  Follows-index_stores :
      (skip len : ℕ) (entries : List (IndexEntry Double))
      → Follows 0 (index_stores p skip len entries)
  unfolding index_stores
  Follows-index_stores skip len entries =
      let second_key = entries_end p skip 0 28 entries in
      let (times, n) = Follows-times_stores len in
      let (positions, m) = Follows-positions_stores second_key len in
      Follows-append (times_stores p len) _ 0 28 times (omega arith) (
        Follows-append (entry_stores p (λ e. e.time) skip 0 28 entries) _ 28 second_key
          (Follows-entry_stores p (λ e. e.time) skip 0 28 entries)
          (entries_end-joined (λ e. e.time) skip 28 entries)
          (Follows-append (positions_stores p second_key len) _ second_key (second_key + 20)
            positions (omega arith)
            (Follows-append (entry_stores p (λ e. e.position) skip 0 (second_key + 20) entries) _
              (second_key + 20) (entries_end p skip 0 (second_key + 20) entries)
              (Follows-entry_stores p (λ e. e.position) skip 0 (second_key + 20) entries)
              (entries_end-joined (λ e. e.position) skip (second_key + 20) entries) (refl, tt))))

  -- Whatever the index, its stores stay in a block of the announced size and make it the keyframes
  -- object, over every `index_skip`-th entry.
  pub index_block-keyframes :
      (entries : List (IndexEntry Double))
      → length entries < 2 ^ 31
      → index_block p entries ≡ some (keyframes (picked (index_skip (length entries)) 0 entries))
  unfolding index_block
  index_block-keyframes entries h =
      let n = length-picked_all entries h in
      fill_block _ _ _ (Follows-index_stores _ _ entries) (joined-index_stores _ _ entries n) (
        omega (
          arith,
          n,
          index_len-le (length entries) h,
          p.length-malloc (u32 (11 + 8 + 22 + 10 + index_len (length entries) * 18)),
          length-keyframes (picked (index_skip (length entries)) 0 entries),
        ))
