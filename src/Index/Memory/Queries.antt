-- ===== src/Index/Memory/Queries.antt =====
-- gst_mem_index_get_assoc_entry on an index that the demuxer filled.
use ubox_publisher.Common.{
  ℕ, ◌^◌, ◌<◌, ◌≡◌, refl, sym, ap, ◌∙◌, Bool, true, false, Option, none, some, List, [], ◌∷◌, All,
  All-map, ◌==◌, if◌then◌else◌,
}
use ubox_publisher.Common.Bits.{bit_and-zero}
use ubox_publisher.Common.Options.{◌>>=◌, >>=-some}
use ubox_publisher.Index.Entry.{
  LookupMethod, lookup_exact, lookup_before, lookup_after, AssocEntry, format_time, format_bytes,
  flag_none,
}
use ubox_publisher.Index.Trees.{Trees}
use ubox_publisher.Index.Memory.{
  FormatIndex, MemIndex, find_format, search_format, with_flags, walk_from, list_find,
  get_assoc_entry,
}
use ubox_publisher.Index.Memory.Search.{IsValued}
use ubox_publisher.Index.Memory.Lookup.{Finds}
use ubox_publisher.Index.Memory.Finds.{search_format-Finds}
use ubox_publisher.Index.Memory.Keeps.{
  Fits, IsIndexOf, TreesOf, of_times, of_positions, find_writer,
}

-- The place of times, or of positions, among the associations, and their format.
abbrev pub place_of : Bool → ℕ
place_of by_time = if by_time then 0 else 1

abbrev pub format_of : Bool → ℕ
format_of by_time = if by_time then format_time else format_bytes

Fits-IsValued :
    (id : ℕ) (by_time : Bool) (e : AssocEntry) → Fits id e → IsValued (place_of by_time) e
Fits-IsValued id true e h = h.1.0.0
Fits-IsValued id false e h = h.1.0.1

no_entry :
    (id : ℕ) (method : LookupMethod) (flags : ℕ) (hist : List AssocEntry)
    → with_flags id method flags hist none ≡ none
unfolding with_flags
no_entry id method flags hist = refl

nothing : (i x : ℕ) (method : LookupMethod) → Finds i x method [] none
nothing i x lookup_exact = refl
nothing i x lookup_before = tt
nothing i x lookup_after = tt

with_no_flags :
    (id : ℕ) (method : LookupMethod) (hist : List AssocEntry) (r : Option AssocEntry)
    → with_flags id method flag_none hist r ≡ r
unfolding with_flags
with_no_flags id method hist none = refl
with_no_flags id method hist (some e) =
    ap (λ n. if n == 0 then some e else walk_from id method flag_none (list_find e.address [] hist))
      (bit_and-zero e.flags)

module _ (g : Trees AssocEntry) where
  -- The answer of the tree, with what is made of the flags.
  abbrev pub answered :
      ℕ
      → LookupMethod
      → ℕ
      → ℕ
      → List AssocEntry
      → Option (FormatIndex g.Tree)
      → Option (Option AssocEntry)
  answered id method flags x hist o = elim o [
    | none ↦ some none
    | some f ↦ search_format g method x f >>= λ entry. some (with_flags id method flags hist entry)
  ]

  pub get_assoc_entry_known :
      (id : ℕ) (method : LookupMethod) (flags : ℕ) (by_time : Bool) (x : ℕ) (mem : MemIndex g.Tree)
      (h : IsIndexOf g id mem)
      → get_assoc_entry g id method flags (format_of by_time) x mem
        ≡ answered id method flags x mem.associations (find_format g (format_of by_time) h.fs)
  unfolding get_assoc_entry
  get_assoc_entry_known id method flags by_time x mem h =
      ap
        (λ o. elim o [
          | none ↦ some none
          | some w ↦
              answered id method flags x mem.associations
                (find_format g (format_of by_time) w.format_index)
        ])
        (find_writer g id mem h)

  -- What a lookup finds before the flags are looked at, and the answer of the lookup.
  pub looked_up :
      (id : ℕ) (method : LookupMethod) (flags : ℕ) (by_time : Bool) (x : ℕ) (hist : List AssocEntry)
      (fs : List (FormatIndex g.Tree))
      → x < 2 ^ 63
      → All (Fits id) hist
      → TreesOf g hist fs
      → (r : Option AssocEntry) × ((answered id method flags x hist
              (find_format g (format_of by_time) fs)
            ≡ some (with_flags id method flags hist r))
          × Finds (place_of by_time) x method hist r)
  looked_up id method flags by_time x [] fs b h t = (
    none,
    (
      ap (λ fs. answered id method flags x [] (find_format g (format_of by_time) fs)) t
          ∙ ap some (sym (no_entry id method flags [])),
      nothing (place_of by_time) x method,
    ),
  )
  looked_up id method flags true x (e ∷ es) fs b h (times, (positions, (t, (nt, np)))) =
      let (r, (q, found)) =
        search_format-Finds g x (of_times g times) (e ∷ es) b
          (All-map (e ∷ es) (Fits-IsValued id true) h) nt method in
      (
        r,
        (
          ap (λ fs. answered id method flags x (e ∷ es) (find_format g format_time fs)) t
              ∙ >>=-some _ q,
          found,
        ),
      )
  looked_up id method flags false x (e ∷ es) fs b h (times, (positions, (t, (nt, np)))) =
      let (r, (q, found)) =
        search_format-Finds g x (of_positions g positions) (e ∷ es) b
          (All-map (e ∷ es) (Fits-IsValued id false) h) np method in
      (
        r,
        (
          ap (λ fs. answered id method flags x (e ∷ es) (find_format g format_bytes fs)) t
              ∙ >>=-some _ q,
          found,
        ),
      )

  -- In a memory index of one writer, filled from its creation with entries that have a time and
  -- then a position, both below 2 ^ 63 - 1: a lookup without flags for a value below 2 ^ 63, by
  -- time or by position, never fails, and finds what its method says among all the entries: the
  -- latest with the value, one with the greatest value that is at most the value, or one with the
  -- least value that is at least the value; NULL if there is none.
  pub get_assoc_entry-Finds :
      (id : ℕ) (method : LookupMethod) (by_time : Bool) (x : ℕ) (mem : MemIndex g.Tree)
      → x < 2 ^ 63
      → IsIndexOf g id mem
      → (r : Option AssocEntry) × ((get_assoc_entry g id method flag_none (format_of by_time) x mem
            ≡ some r)
          × Finds (place_of by_time) x method mem.associations r)
  get_assoc_entry-Finds id method by_time x mem b h =
      let (r, (q, found)) =
        looked_up id method flag_none by_time x mem.associations h.fs b h.fits h.trees in
      (
        r,
        (
          get_assoc_entry_known id method flag_none by_time x mem h
              ∙ q
              ∙ ap some (with_no_flags id method mem.associations r),
          found,
        ),
      )
