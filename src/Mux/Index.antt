-- ===== src/Mux/Index.antt =====
-- gst_flv_mux_update_index, gst_flv_mux_determine_duration and gst_flv_mux_rewrite_header: the seek
-- index of a file, and its place in the metadata.
pub mod Count
pub mod Layout
pub mod Fit
use ubox_publisher.Common.{
  ℕ, suc, ◌+◌, ◌-◌, ◌*◌, ◌/◌, ◌%◌, ◌^◌, Bool, true, false, ◌&&◌, Option, none, some, List, [], ◌∷◌,
  ◌++◌, reverse, ltb, ◌==◌, if◌then◌else◌, u32, length,
}
use ubox_publisher.Common.Memory.{Bytes, Store, fill, codes}
use ubox_publisher.Gst.Numbers.{clock_time_none, is_valid, second}
use ubox_publisher.Gst.Data.{Buffer, FlowReturn, ok, new_buffer}
use ubox_publisher.Gst.Platform.{Platform}
use ubox_publisher.Mux.State.{
  Kind, audio, video, MuxPad, Mux, IndexEntry, M, get_pad, ◌>>=◌, ◌>>◌, pure, lift, gets, modify,
  moved,
}
use ubox_publisher.Mux.Push.{Peers, push, running_time}
use ubox_publisher.Mux.Script.{max_index_entries, create_number_script_value}

abbrev pub is_video : Kind → Bool
is_video video = true
is_video audio = false

-- The pads of `sinkpads`.
unfoldable pub pads {ℓ} : {A : Type ℓ} → (Kind → Option A) → List Kind → List A
pads find [] = []
pads find (k ∷ ks) = elim (find k) [ none ↦ pads find ks | some a ↦ a ∷ pads find ks ]

-- `if (duration == GST_CLOCK_TIME_NONE) duration = t; else duration = MAX (duration, t);`
abbrev pub longer : ℕ → ℕ → ℕ
longer duration t =
    if duration == clock_time_none then t else if ltb t duration then duration else t

unfoldable pub longest_timestamp : ℕ → List MuxPad → ℕ
longest_timestamp duration [] = duration
longest_timestamp duration (pad ∷ rest) =
    longest_timestamp
      (if is_valid pad.last_timestamp then longer duration pad.last_timestamp else duration) rest

-- At most MAX_INDEX_ENTRIES entries are written: every `index_skip`-th one.
unfoldable pub index_skip : ℕ → ℕ
index_skip len = if ltb max_index_entries len then 1 + len / max_index_entries else 1

unfoldable pub index_len : ℕ → ℕ
unfolding index_skip
index_len len =
    if ltb max_index_entries len then u32 (len + index_skip len - 1) / index_skip len else len

module _ (p : Platform) where
  open p use {Double, write_uint16_be, write_uint24_be, write_uint32_be, write_double_be}

  unfoldable pub determine_duration : Mux Double → ℕ
  unfolding pads get_pad longest_timestamp
  determine_duration mux =
      longest_timestamp clock_time_none (pads (λ k. get_pad k mux) mux.sinkpads)

  unfoldable pub update_index : Buffer → Kind → MuxPad → Mux Double → Mux Double
  unfolding running_time
  update_index buffer kind pad mux =
      if is_video kind && buffer.delta_unit
      then mux
      else if is_valid buffer.pts
      then record mux {
        index =
            record {
              position = p.uint64_to_double mux.byte_count;
              time =
                  p.divide (p.uint64_to_double (running_time p pad.segment buffer.pts))
                    (p.uint64_to_double second);
            }
            ∷ mux.index;
      }
      else mux

  -- One of the two loops over the index: `i` counts the entries, `off` is where `data` points.
  unfoldable pub entry_stores :
      (IndexEntry Double → Double) → ℕ → ℕ → ℕ → List (IndexEntry Double) → List Store
  entry_stores f skip i off [] = []
  entry_stores f skip i off (e ∷ es) =
      let rest = entry_stores f skip (i + 1) (if i % skip == 0 then off + 9 else off) es in
      if i % skip == 0 then (off, 0 ∷ []) ∷ (off + 1, write_double_be (f e)) ∷ rest else rest

  -- Where `data` points when the loop is done.
  unfoldable pub entries_end : ℕ → ℕ → ℕ → List (IndexEntry Double) → ℕ
  entries_end skip i off [] = off
  entries_end skip i off (e ∷ es) =
      entries_end skip (i + 1) (if i % skip == 0 then off + 9 else off) es

  -- The keys and the array headers before the times, and before the positions.
  unfoldable pub times_stores : ℕ → List Store
  times_stores len =
      (0, write_uint16_be 9)
      ∷ (2, codes "keyframes")
      ∷ (11, 8 ∷ [])
      ∷ (12, write_uint32_be 2)
      ∷ (16, write_uint16_be 5)
      ∷ (18, codes "times")
      ∷ (23, 10 ∷ [])
      ∷ (24, write_uint32_be len)
      ∷ []

  unfoldable pub positions_stores : ℕ → ℕ → List Store
  positions_stores off len =
      (off, write_uint16_be 13)
      ∷ (off + 2, codes "filepositions")
      ∷ (off + 15, 10 ∷ [])
      ∷ (off + 16, write_uint32_be len)
      ∷ []

  -- The stores into the block for the index, `entries` in the order of the file.
  unfoldable pub index_stores : ℕ → ℕ → List (IndexEntry Double) → List Store
  unfolding entry_stores entries_end times_stores positions_stores
  index_stores skip len entries =
      let second_key = entries_end skip 0 28 entries in
      let end = entries_end skip 0 (second_key + 20) entries in
      times_stores len
      ++ (entry_stores (λ e. e.time) skip 0 28 entries
          ++ (positions_stores second_key len
              ++ (entry_stores (λ e. e.position) skip 0 (second_key + 20) entries
                  ++ ((end, write_uint24_be 9) ∷ []))))

  unfoldable pub index_block : List (IndexEntry Double) → Option Bytes
  unfolding index_stores index_len index_skip
  index_block entries =
      let len = index_len (length entries) in
      fill (index_stores (index_skip (length entries)) len entries)
        (p.malloc (u32 (11 + 8 + 22 + 10 + len * 18)))

  -- The filler's key, for what is left of the space that preallocate_index took.
  unfoldable pub filler_block : ℕ → Option Bytes
  filler_block len =
      fill
        ((0, write_uint16_be 9)
          ∷ (2, codes "gstfiller")
          ∷ (11, 2 ∷ [])
          ∷ (12, write_uint16_be ((max_index_entries - len) * 18 - 14))
          ∷ [])
        (p.malloc 14)

  unfoldable pub index_with_filler : List (IndexEntry Double) → Option Bytes
  index_with_filler entries = elim (index_block entries) [
    | none ↦ none
    | some index ↦
        if ltb (index_len (length entries)) max_index_entries
        then (elim (filler_block (index_len (length entries))) [
          | none ↦ none
          | some rest ↦ some (index ++ rest)
        ])
        else some index
  ]

  -- `duration` and `filesize` with their final values.
  unfoldable pub rewritten_numbers : ℕ → ℕ → Option Bytes
  rewritten_numbers duration byte_count =
      elim (create_number_script_value p (codes "duration")
        (p.divide (p.uint64_to_double duration) (p.uint64_to_double second))) [
          | none ↦ none
          | some d ↦
              (elim (create_number_script_value p (codes "filesize")
                (p.uint64_to_double byte_count)) [ none ↦ none | some s ↦ some (d ++ s) ])
        ]

  abbrev pub index_part : List (IndexEntry Double) → Option Bytes
  index_part [] = some []
  index_part (e ∷ es) = index_with_filler (e ∷ es)

  -- From the segment event on.
  unfoldable pub rewrite : Peers → M Double FlowReturn
  rewrite peers = do
    modify (λ m. record m { sent = moved (13 + 29) ∷ m.sent })
    dur ← gets determine_duration
    modify (λ m. record m { duration = if is_valid dur then dur else m.duration })
    m ← gets (λ m. m)
    numbers ← lift (rewritten_numbers m.duration m.byte_count)
    modify (λ m. record m { index = reverse m.index })
    index ← gets (λ m. m.index)
    bytes ← lift (index_part index)
    push peers (new_buffer (numbers ++ bytes))

  unfoldable pub rewrite_header : Peers → M Double FlowReturn
  rewrite_header peers mux =
      if mux.streamable
      then some (ok, mux)
      else if peers.accepts_segment mux.sent
      then rewrite peers mux
      else some (ok, mux)
