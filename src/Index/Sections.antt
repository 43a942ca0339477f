-- ===== src/Index/Sections.antt =====
-- Playing backwards with the memory index: gst_flv_demux_seek_to_prev_keyframe (uflv/gstflvdemux.c).
use ubox_publisher.Common.{
  ℕ, ◌-◌, ◌^◌, ◌<◌, ◌≡◌, ◌≢◌, refl, ap, ◌∙◌, true, false, ◌&&◌, Option, none, some, List, [], ◌∷◌,
  inl, inr, All-member, Any-map, Any, ◌==◌, if◌then◌else◌, arith,
}
use ubox_publisher.Common.Options.{◌>>=◌}
use ubox_publisher.Gst.Data.{ok, eos}
use ubox_publisher.Gst.Platform.{Platform}
use ubox_publisher.Demux.State.{Stream, header_state, tag_type_state}
use ubox_publisher.Demux.Env.{Env}
use ubox_publisher.Demux.Send.{State}
use ubox_publisher.Demux.Seek.{move_to_offset}
use ubox_publisher.Demux.Pull.Sections.{
  is_complete, section_before, section_from, seek_to_prev_keyframe,
}
use ubox_publisher.Index.Entry.{
  lookup_before, AssocEntry, format_time, format_bytes, flag_key_unit, invalid_id, has_flags,
  entry_assoc_map,
}
use ubox_publisher.Index.Trees.{Trees}
use ubox_publisher.Index.Objects.{Index, get_assoc_entry}
use ubox_publisher.Index.Memory
use ubox_publisher.Index.Ops.{
  entry_of, place_and_time, or_else, key_unit_before_position, with_memory,
}
use ubox_publisher.Index.Memory.Search.{val}
use ubox_publisher.Index.Memory.Keeps.{Fits, IsIndexOf}
use ubox_publisher.Index.Memory.KeyUnits.{IsDistinct, IsInOrder, IsLast, get_assoc_entry-IsLast}

-- A stream as it is at the beginning of a section.
abbrev pub IsBegun : Stream → Type 0
IsBegun s = (s.need_discont ≡ true) × (s.done ≡ false) × (s.first_ts ≡ 18446744073709551615)

module _ (g : Trees AssocEntry) (id : ℕ) (fresh : Index g.Tree → ℕ) where
  key_unit_before :
      (x : ℕ) (index : Index g.Tree) (j : AssocEntry)
      → id ≢ invalid_id
      → Fits id j
      → Memory.get_assoc_entry g id lookup_before flag_key_unit format_bytes x index.memory
        ≡ some (some j)
      → key_unit_before_position g id fresh index x ≡ some (val 1 j, val 0 j)
  unfolding key_unit_before_position get_assoc_entry
  key_unit_before x index j n (_, (_, (_, (_, (t, b))))) q =
      let c : (id == invalid_id) ≡ false = ground arith in
      ap
        (λ (o : Option (Option AssocEntry)).
          entry_of o >>= λ k. some (place_and_time g id fresh 0 k))
        (ap
            (λ b.
              if b
              then some none
              else Memory.get_assoc_entry g id lookup_before flag_key_unit format_bytes x
                  index.memory)
            c
          ∙ q)
      ∙ ap (λ o. some (or_else o 0, or_else (entry_assoc_map j format_time) 0)) b
      ∙ ap (λ o. some (val 1 j, or_else o 0)) t

  module _ (p : Platform) (e : Env p) where
    abbrev Backing : Env p
    Backing = with_memory g id fresh p e

    -- The next section is read from `at` and ends at `from`, as the first bytes of it say: with the
    -- header of the file at 0, and a tag elsewhere. Its own begin is not known yet, both streams are
    -- discontinuous and not done, and their first times are to be set again.
    abbrev pub IsSection : ℕ → ℕ → State p Backing → Type 0
    IsSection at from s =
        (s.offset ≡ at)
        × (s.to_offset ≡ from)
        × (s.from_offset ≡ none)
        × (s.state ≡ (if at == 0 then header_state else tag_type_state))
        × IsBegun s.audio_stream
        × IsBegun s.video_stream

    -- Where the demuxer's index is a memory index that it alone filled, with entries at different
    -- addresses and in the order of their positions, a section that did not reach the start of the
    -- segment began at `from`, below 2 ^ 63, and some key unit is in front of that:
    -- gst_flv_demux_seek_to_prev_keyframe makes ready a section that is read from the last key unit
    -- that is, which is strictly before `from`, and that ends at `from`.
    pub seek_to_prev_keyframe-IsLast :
        (demux : State p Backing) (index : Index g.Tree) (from : ℕ)
        → demux.index ≡ some index
        → demux.from_offset ≡ some from
        → (is_complete p Backing demux.segment demux.audio_stream
            && is_complete p Backing demux.segment demux.video_stream)
          ≡ false
        → id ≢ invalid_id
        → from < 2 ^ 63
        → IsIndexOf g id index.memory
        → IsInOrder 1 index.memory.associations
        → IsDistinct index.memory.associations
        → Any (λ k. (has_flags flag_key_unit k ≡ true) × (val 1 k < from)) index.memory.associations
        → (j : AssocEntry) × ((s : State p Backing) × ((seek_to_prev_keyframe p Backing demux
                ≡ (ok, s))
              × IsSection (val 1 j) from s)
            × ((val 1 j < from) × IsLast 1 flag_key_unit (from - 1) index.memory.associations j))
    unfolding seek_to_prev_keyframe move_to_offset
    seek_to_prev_keyframe-IsLast demux index from q f c n b h o d a =
        let hist = index.memory.associations in
        let positive = begins hist a in
        let z : (from == 0) ≡ false = ground arith in
        let (j, (w, last)) =
          get_assoc_entry-IsLast g id flag_key_unit false (from - 1) index.memory (omega arith) h o
            d (Any-map hist (λ k l. (l.0, omega (arith, l.1))) a) in
        let fits = All-member (Fits id) j hist last.0 h.fits in
        (
          j,
          (
            move_to_offset p Backing (val 1 j) false (record demux { to_offset = from }),
            (
              ap (λ b. if b then (eos, demux) else section_from p Backing demux.from_offset demux) c
                  ∙ ap (λ o. section_from p Backing o demux) f
                  ∙ ap
                      (λ b.
                        if b
                        then (eos, demux)
                        else section_before p Backing from
                            (demux.index >>= λ i. key_unit_before_position g id fresh i (from - 1))
                            demux)
                      z
                  ∙ ap
                      (λ (o : Option (Index g.Tree)).
                        section_before p Backing from
                          (o >>= λ i. key_unit_before_position g id fresh i (from - 1)) demux)
                      q
                  ∙ ap (λ o. section_before p Backing from o demux)
                      (key_unit_before (from - 1) index j n fits w),
              (refl, refl, refl, refl, (refl, refl, refl), (refl, refl, refl)),
            ),
            (omega (arith, last.1.0.1), last),
          ),
        )
      where
        begins :
            (es : List AssocEntry)
            → Any (λ k. (has_flags flag_key_unit k ≡ true) × (val 1 k < from)) es
            → 0 < from
        begins [] k = absurd k.1
        begins (e ∷ es) (inl k) = omega (arith, k.1)
        begins (e ∷ es) (inr k) = begins es k
