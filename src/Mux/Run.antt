-- ===== src/Mux/Run.antt =====
-- gst_flv_mux_aggregate and what it calls: the header, the choice of a pad, the tags, and the end.
pub mod Best
pub mod Emits
pub mod Returns
pub mod Header
use ubox_publisher.Common.{
  ℕ, Bool, true, false, ◌&&◌, Option, none, some, List, [], ◌∷◌, ◌++◌, ltb, ◌==◌, if◌then◌else◌,
}
use ubox_publisher.Common.Memory.{Bytes}
use ubox_publisher.Gst.Numbers.{clock_time_none, is_valid}
use ubox_publisher.Gst.Data.{Buffer, Segment, FlowReturn, ok, is_ok, dts_or_pts, new_buffer}
use ubox_publisher.Gst.Platform.{Platform}
use ubox_publisher.Mux.State.{
  Kind, audio, video, MuxPad, Mux, M, get_pad, set_pad, ◌>>=◌, ◌>>◌, pure, lift, gets, modify,
}
use ubox_publisher.Mux.Push.{Peers, push, running_time}
use ubox_publisher.Mux.Tag.{is_avc, buffer_to_tag, codec_data_buffer_to_tag, eos_to_tag}
use ubox_publisher.Mux.Script.{create_header}
use ubox_publisher.Mux.Index.{update_index}
use ubox_publisher.Mux.Metadata.{create_metadata}
use ubox_publisher.Mux.Caps.{is_some}

-- A sink that cannot seek, or does not say, gets streamable output.
abbrev pub check_seekable : Option Bool → Bool → Bool
check_seekable answer true = true
check_seekable (some true) false = false
check_seekable _ false = true

abbrev pub mark_header : Buffer → Buffer
mark_header b = record b { is_header = true }

abbrev pub mark_codec_header : Buffer → Buffer
mark_codec_header b = record b { is_header = true; delta_unit = true }

abbrev pub optional : (Buffer → Buffer) → Option Buffer → List Buffer
optional f none = []
optional f (some b) = f b ∷ []

-- What is marked, put into the stream header and pushed, in this order.
abbrev pub header_buffers : Bytes → Bytes → Option Buffer → Option Buffer → List Buffer
header_buffers header metadata v a =
    mark_header (new_buffer header)
    ∷ mark_header (new_buffer metadata)
    ∷ (optional mark_codec_header v ++ optional mark_header a)

-- Whether the codec of a pad has a header of its own.
abbrev pub wants_codec_data : Kind → ℕ → Bool
wants_codec_data video codec = is_avc codec
wants_codec_data audio codec = codec == 10

-- What the best pad was, and its time.
abbrev pub BestPad : Type 0
BestPad = Option Kind × ℕ

module _ (p : Platform) (peers : Peers) where
  open p use {Double}

  unfoldable pub push_all : List Buffer → M Double FlowReturn
  push_all [] = pure ok
  push_all (b ∷ bs) = do
    ret ← push peers b
    let rest = push_all bs
    if is_ok ret then rest else pure ret

  -- The tag for the codec data of one pad, if there is any.
  unfoldable pub tag_of_codec_data : Kind → MuxPad → Option Buffer → M Double (Option Buffer)
  tag_of_codec_data kind pad none = pure none
  tag_of_codec_data kind pad (some b) = do
    tag ← codec_data_buffer_to_tag p kind pad b
    pure (some tag)

  unfoldable pub codec_data_tag : Kind → Option MuxPad → M Double (Option Buffer)
  codec_data_tag kind none = pure none
  codec_data_tag kind (some pad) =
      if wants_codec_data kind pad.codec
      then tag_of_codec_data kind pad pad.codec_data
      else pure none

  -- The loop over the sink pads; the pair is video_codec_data and audio_codec_data.
  unfoldable pub codec_data_tags :
      List Kind → Option Buffer × Option Buffer → M Double (Option Buffer × Option Buffer)
  codec_data_tags [] tags = pure tags
  codec_data_tags (video ∷ ks) (v, a) = do
    pad ← gets (get_pad video)
    v' ← codec_data_tag video pad
    codec_data_tags ks (if is_some v' then v' else v, a)
  codec_data_tags (audio ∷ ks) (v, a) = do
    pad ← gets (get_pad audio)
    a' ← codec_data_tag audio pad
    codec_data_tags ks (v, if is_some a' then a' else a)

  -- gst_flv_mux_create_metadata on the state.
  abbrev pub metadata_tag : Bool → M Double (Option Bytes)
  metadata_tag full = do
    (tag, duration) ← (λ mux. lift (create_metadata p peers full mux) mux)
    modify (λ m. record m { duration = duration })
    pure tag

  unfoldable pub write_header : M Double FlowReturn
  write_header = do
    modify (λ m. record m { streamable = check_seekable peers.seekable m.streamable })
    header ← (λ mux. lift (create_header p mux) mux)
    script ← metadata_tag true
    metadata ← lift script
    sinkpads ← gets (λ m. m.sinkpads)
    (v, a) ← codec_data_tags sinkpads (none, none)
    let buffers = header_buffers header metadata v a
    modify (λ m. record m { streamheader = some buffers })
    push_all buffers

  unfoldable pub write_buffer : Kind → MuxPad → Buffer → M Double FlowReturn
  write_buffer kind pad buffer = do
    let dts = running_time p pad.segment buffer.dts
    modify (λ m. if m.streamable then m else update_index p buffer kind pad m)
    tag ← buffer_to_tag p kind pad buffer
    ret ← push peers tag
    modify (λ m.
        if is_ok ret && is_valid dts
        then set_pad kind (some (record pad { last_timestamp = dts })) m
        else m)
    pure ret

  unfoldable pub are_all_pads_eos : Mux Double → List Kind → Bool
  are_all_pads_eos mux [] = true
  are_all_pads_eos mux (k ∷ ks) =
      let rest = are_all_pads_eos mux ks in
      elim (get_pad k mux) [ none ↦ rest | some pad ↦ if pad.is_eos then rest else false ]

  abbrev pub write_eos_of : Option MuxPad → M Double FlowReturn
  write_eos_of none = pure ok
  write_eos_of (some pad) = do tag ← eos_to_tag p video pad; push peers tag

  unfoldable pub write_eos : M Double FlowReturn
  write_eos mux = write_eos_of mux.video_pad mux

  -- One round of the loop of gst_flv_mux_find_best_pad, on the buffer that a pad peeks.
  unfoldable pub better : Kind → Segment → Option Buffer → BestPad → BestPad
  unfolding running_time
  better kind segment none best = best
  better kind segment (some buffer) (best, best_ts) =
      let t = running_time p segment (dts_or_pts buffer) in
      if best_ts == clock_time_none
      then (some kind, t)
      else if is_valid (dts_or_pts buffer) && ltb t best_ts
      then (some kind, t)
      else (best, best_ts)

  abbrev pub better_of : Kind → Option MuxPad → BestPad → BestPad
  better_of k none best = best
  better_of k (some pad) best = better k pad.segment pad.queued best

  unfoldable pub find_best_pad_from : Mux Double → List Kind → BestPad → BestPad
  find_best_pad_from mux [] best = best
  find_best_pad_from mux (k ∷ ks) best =
      find_best_pad_from mux ks (better_of k (get_pad k mux) best)

  unfoldable pub find_best_pad : Mux Double → BestPad
  find_best_pad mux = find_best_pad_from mux mux.sinkpads (none, clock_time_none)
