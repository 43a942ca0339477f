-- ===== src/Index/Ops.antt =====
-- The index of the demuxer with the memory index behind it: the calls in
-- gst_flv_demux_parse_and_add_index_entry and gst_flv_demux_find_offset (uflv/gstflvdemux.c).
use ubox_publisher.Common.{
  ℕ, ◌^◌, ◌≤◌, ◌<◌, ◌≡◌, ◌≢◌, ap, ◌∙◌, Bool, true, false, Option, none, some, [], ◌∷◌, All-member,
  Any, ◌==◌, if◌then◌else◌, arith,
}
use ubox_publisher.Common.Options.{◌>>=◌}
use ubox_publisher.Gst.Platform.{Platform}
use ubox_publisher.Demux.State.{IndexOps, SeekEvent, DemuxSegment}
use ubox_publisher.Demux.Env.{Env}
use ubox_publisher.Demux.Send.{State}
use ubox_publisher.Demux.Seek.{at_entry, find_offset}
use ubox_publisher.Index.Entry.{
  lookup_exact, lookup_before, lookup_after, AssocEntry, format_time, format_bytes, flag_none,
  flag_key_unit, invalid_id, has_flags, entry_assoc_map,
}
use ubox_publisher.Index.Trees.{Trees}
use ubox_publisher.Index.Objects.{Index, add_associationv, get_assoc_entry}
use ubox_publisher.Index.Memory
use ubox_publisher.Index.Memory.Search.{val}
use ubox_publisher.Index.Memory.Keeps.{Fits, IsIndexOf, flags_of}
use ubox_publisher.Index.Memory.KeyUnits.{IsDistinct, IsInOrder, IsLast, get_assoc_entry-IsLast}

abbrev pub or_else : Option ℕ → ℕ → ℕ
or_else none x = x
or_else (some v) x = v

abbrev pub is_there : {A : Type 0} → Option A → Bool
is_there none = false
is_there (some a) = true

-- A fault is no entry; the results on Memory show that there is none.
abbrev pub entry_of : Option (Option AssocEntry) → Option AssocEntry
entry_of none = none
entry_of (some r) = r

-- `fresh` is the block that g_slice_new gives, and `id` is `demux->index_id`.
module _ (g : Trees AssocEntry) (id : ℕ) (fresh : Index g.Tree → ℕ) where
  unfoldable pub has_position : Index g.Tree → ℕ → Bool
  has_position index pos =
      is_there (entry_of (get_assoc_entry g id lookup_exact flag_none format_bytes pos index))

  unfoldable pub add_position : Index g.Tree → Bool → ℕ → ℕ → Index g.Tree
  add_position index keyframe ts pos =
      elim (add_associationv g (fresh index) id (flags_of keyframe)
        (record { format = format_time; value = ts }
          ∷ record { format = format_bytes; value = pos }
          ∷ [])
        index) [ none ↦ index | some (entry, index') ↦ index' ]

  abbrev pub place_and_time : ℕ → AssocEntry → ℕ × ℕ
  place_and_time time entry = (
    or_else (entry_assoc_map entry format_bytes) 0,
    or_else (entry_assoc_map entry format_time) time,
  )

  unfoldable pub key_unit_at : Index g.Tree → Bool → ℕ → Option (ℕ × ℕ)
  key_unit_at index after time = do
    entry ← entry_of (
        get_assoc_entry g id (if after then lookup_after else lookup_before) flag_key_unit
          format_time time index)
    some (place_and_time time entry)

  -- The lookup of gst_flv_demux_seek_to_prev_keyframe.
  unfoldable pub key_unit_before_position : Index g.Tree → ℕ → Option (ℕ × ℕ)
  key_unit_before_position index pos = do
    entry ← entry_of (get_assoc_entry g id lookup_before flag_key_unit format_bytes pos index)
    some (place_and_time 0 entry)

  abbrev pub memory_ops : IndexOps
  memory_ops = record {
    Index = Index g.Tree;
    has_position = has_position;
    add_association = add_position;
    key_unit_at = key_unit_at;
    key_unit_before_position = key_unit_before_position;
  }

  module _ (p : Platform) (e : Env p) where
    abbrev pub with_memory : Env p
    with_memory = record e { index = memory_ops }

    at_key_unit :
        (x : ℕ) (index : Index g.Tree) (j : AssocEntry)
        → id ≢ invalid_id
        → Fits id j
        → Memory.get_assoc_entry g id lookup_before flag_key_unit format_time x index.memory
          ≡ some (some j)
        → key_unit_at index false x ≡ some (val 1 j, val 0 j)
    unfolding key_unit_at get_assoc_entry
    at_key_unit x index j n (_, (_, (_, (_, (t, b))))) q =
        let c : (id == invalid_id) ≡ false = ground arith in
        ap (λ (o : Option (Option AssocEntry)). entry_of o >>= λ k. some (place_and_time x k))
          (ap
              (λ b.
                if b
                then some none
                else Memory.get_assoc_entry g id lookup_before flag_key_unit format_time x
                    index.memory)
              c
            ∙ q)
        ∙ ap (λ o. some (or_else o 0, or_else (entry_assoc_map j format_time) x)) b
        ∙ ap (λ o. some (val 1 j, or_else o x)) t

    -- For a seek without SNAP_AFTER, where the demuxer's index is a memory index that it alone filled,
    -- with entries at different addresses and in the order of their times, and some key unit is at or
    -- before the position of the segment, which is below 2 ^ 63: gst_flv_demux_find_offset finds the
    -- last key unit that is, and answers its place in the file. The start, the time and the position
    -- of the segment become its time if the seek is to key units, and the segment stays otherwise.
    pub find_offset-IsLast :
        (event : SeekEvent) (segment : DemuxSegment) (demux : State p with_memory)
        (index : Index g.Tree)
        → demux.index ≡ some index
        → event.snap_after ≡ false
        → id ≢ invalid_id
        → segment.position < 2 ^ 63
        → IsIndexOf g id index.memory
        → IsInOrder 0 index.memory.associations
        → IsDistinct index.memory.associations
        → Any
            (λ k. (has_flags flag_key_unit k ≡ true) × (val 0 k ≤ segment.position))
            index.memory.associations
        → (j : AssocEntry) × ((find_offset p with_memory event segment demux ≡ (
          val 1 j,
          if event.key_unit
              then record segment { start = val 0 j; time = val 0 j; position = val 0 j }
              else segment,
        ))
            × IsLast 0 flag_key_unit segment.position index.memory.associations j)
    unfolding find_offset
    find_offset-IsLast event segment demux index q s n b h o d a =
        let (j, (w, last)) =
          get_assoc_entry-IsLast g id flag_key_unit true segment.position index.memory b h o d a in
        let fits = All-member (Fits id) j index.memory.associations last.0 h.fits in
        (
          j,
          (
            ap
                  (λ (o : Option (Index g.Tree)).
                    at_entry p with_memory event
                      (o >>= λ i. key_unit_at i event.snap_after segment.position) segment)
                  q
                ∙ ap
                    (λ b.
                      at_entry p with_memory event (key_unit_at index b segment.position) segment)
                    s
                ∙ ap (λ o. at_entry p with_memory event o segment)
                    (at_key_unit segment.position index j n fits w),
            last,
          ),
        )
