-- ===== src/Mux/Index/Count.antt =====
-- The index fits into the space that was kept for it: the number of entries that are written.
use ubox_publisher.Common.{
  ℕ, ◌+◌, ◌-◌, ◌*◌, ◌/◌, ◌%◌, ◌^◌, ◌≤◌, ◌<◌, ◌≡◌, Bool-cases, inl, inr, List, [], ◌∷◌, ◌==◌, ==_iff,
  if◌then◌else◌, ltb, length, arith,
}
use native.Mathlib.Nat.{div-eq_of_lt-le, div-add-mod', mod-lt, div-lt_iff_lt-mul, div-eq_of_lt}
use ubox_publisher.Mux.Script.{max_index_entries}
use ubox_publisher.Mux.Index.{index_skip, index_len}

-- Every `skip`-th entry, where `i` have been counted.
unfoldable pub picked {ℓ} : {A : Type ℓ} → ℕ → ℕ → List A → List A
picked skip i [] = []
picked skip i (a ∷ rest) =
    let more = picked skip (i + 1) rest in if i % skip == 0 then a ∷ more else more

-- How many multiples of `skip` are below `i`.
abbrev multiples_below : ℕ → ℕ → ℕ
multiples_below skip i = (i + skip - 1) / skip

div_unique : (k n m : ℕ) → k * n ≤ m → m < k * n + n → m / n ≡ k
div_unique k n m lo hi = div-eq_of_lt-le n lo (omega arith)

multiples_below_suc :
    (skip i : ℕ)
    → 0 < skip
    → multiples_below skip (i + 1) ≡ multiples_below skip i + (if i % skip == 0 then 1 else 0)
multiples_below_suc skip i h =
    let q = i / skip in
    let parts : q * skip + i % skip ≡ i = div-add-mod' i skip in
    let small : i % skip < skip = mod-lt i h in
    let above : (i + 1 + skip - 1) / skip ≡ q + 1 =
      div_unique (q + 1) skip (i + 1 + skip - 1) (omega arith) (omega arith) in
    elim (Bool-cases (i % skip == 0)) [
      | inl e ↦
          let zero_rest : i % skip ≡ 0 = (==_iff _ _).0 e in
          rw (e, above, div_unique q skip (i + skip - 1) (omega arith) (omega arith))
      | inr e ↦
          let some_rest : 0 < i % skip = ground arith in
          rw (e, above, div_unique (q + 1) skip (i + skip - 1) (omega arith) (omega arith))
            (omega arith)
    ]

length-picked {ℓ} :
    {A : Type ℓ} (skip i : ℕ) (entries : List A)
    → 0 < skip
    → length (picked skip i entries) + multiples_below skip i
      ≡ multiples_below skip (i + length entries)
unfolding picked
length-picked skip i [] h = let e : i + 0 ≡ i = omega arith in rw e (omega arith)
length-picked skip i (a ∷ rest) h =
    let more = length-picked skip (i + 1) rest h in
    let e : i + 1 + length rest ≡ i + length (a ∷ rest) = omega arith in
    let more' = rw e at more in
    elim (Bool-cases (i % skip == 0)) [
      | inl t ↦ rw t (omega (arith, more', rw t at (multiples_below_suc skip i h)))
      | inr t ↦ rw t (omega (arith, more', rw t at (multiples_below_suc skip i h)))
    ]

length-picked_ceil {ℓ} :
    {A : Type ℓ} (skip : ℕ) (entries : List A)
    → 0 < skip
    → length (picked skip 0 entries) ≡ (length entries + skip - 1) / skip
length-picked_ceil skip entries h =
    let none_below : (0 + skip - 1) / skip ≡ 0 = div-eq_of_lt (omega arith) in
    let e : 0 + length entries ≡ length entries = omega arith in
    omega (arith, none_below, rw e at (length-picked skip 0 entries h))

-- The number of entries that are written is the length that the arrays announce.
pub length-picked_all {ℓ} :
    {A : Type ℓ} (entries : List A)
    → length entries < 2 ^ 31
    → length (picked (index_skip (length entries)) 0 entries) ≡ index_len (length entries)
unfolding index_skip index_len
length-picked_all entries h =
    let n = length entries in
    elim (Bool-cases (ltb max_index_entries n)) [
      | inl many ↦
          let e : (n + (1 + n / 128) - 1) % 2 ^ 32 ≡ n + (1 + n / 128) - 1 = omega arith in
          rw (many, e) (length-picked_ceil (1 + n / 128) entries (omega arith))
      | inr few ↦ rw few (omega (arith, length-picked_ceil 1 entries (omega arith)))
    ]

le_of_lt-suc : (n : ℕ) → n < 129 → n ≤ 128
le_of_lt-suc n h = omega arith

-- At most MAX_INDEX_ENTRIES entries are written.
pub index_len-le : (n : ℕ) → n < 2 ^ 31 → index_len n ≤ max_index_entries
unfolding index_skip index_len
index_len-le n h = elim (Bool-cases (ltb max_index_entries n)) [
  | inl many ↦
      let e : (n + (1 + n / 128) - 1) % 2 ^ 32 ≡ n + (1 + n / 128) - 1 = omega arith in
      let bound : (n + (1 + n / 128) - 1) / (1 + n / 128) < 129 =
        (div-lt_iff_lt-mul {k = 1 + n / 128} {x = n + (1 + n / 128) - 1} {y = 129} (omega arith)).1
          (omega arith) in
      rw (many, e) (le_of_lt-suc _ bound)
  | inr few ↦ rw few (ground arith)
]
