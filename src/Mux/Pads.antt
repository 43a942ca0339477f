-- ===== src/Mux/Pads.antt =====
-- gst_flv_mux_create_new_pad, gst_flv_mux_release_pad, gst_flv_mux_sink_event and the properties.
pub mod Invariant
use ubox_publisher.Common.{
  ℕ, Bool, true, false, Option, none, some, List, [], ◌∷◌, ◌++◌, if◌then◌else◌,
}
use ubox_publisher.Common.Memory.{Bytes}
use ubox_publisher.Gst.Data.{Buffer, Segment, Caps, Tag, MergeMode, replace, keep}
use ubox_publisher.Mux.State.{
  Kind, audio, video, MuxPad, header_state, data_state, Mux, M, get_pad, set_pad, reset_pad,
  pad_flush, reset,
}
use ubox_publisher.Mux.Caps.{video_pad_setcaps, audio_pad_setcaps, is_some}

-- The pad template of a request; `invalid` is any that is not the muxer's.
pub data Template : Type 0 where
  sink : Kind → Template
  invalid : Template

abbrev pub same_kind : Kind → Kind → Bool
same_kind audio audio = true
same_kind video video = true
same_kind _ _ = false

-- gst_element_remove_pad
unfoldable pub remove_kind : Kind → List Kind → List Kind
remove_kind k [] = []
remove_kind k (j ∷ ks) = let rest = remove_kind k ks in if same_kind k j then rest else j ∷ rest

-- The caps of an event.
abbrev pub pad_setcaps : Kind → MuxPad → Caps → MuxPad × Bool
pad_setcaps video pad caps = video_pad_setcaps pad caps
pad_setcaps audio pad caps = audio_pad_setcaps pad caps

-- gst_flv_mux_store_codec_tags: a nominal bitrate goes before a bitrate.
unfoldable pub nominal : List Tag → Option ℕ
nominal [] = none
nominal (Tag.nominal_bitrate b ∷ ts) = some b
nominal (_ ∷ ts) = nominal ts

unfoldable pub actual : List Tag → Option ℕ
actual [] = none
actual (Tag.bitrate b ∷ ts) = some b
actual (_ ∷ ts) = actual ts

abbrev pub set_bitrate : Option ℕ → Option ℕ → MuxPad → MuxPad
set_bitrate (some b) _ pad = record pad { bitrate = b }
set_bitrate none (some b) pad = record pad { bitrate = b }
set_bitrate none none pad = pad

unfoldable pub store_codec_tags : List Tag → MuxPad → MuxPad
unfolding nominal actual
store_codec_tags list pad = set_bitrate (nominal list) (actual list) pad

-- The events that the muxer looks at, and others by a number: segments, the end of the stream, flushes.
pub data SinkEvent : Type 0 where
  caps_event : Caps → SinkEvent
  tag_event : List Tag → SinkEvent
  other_event : ℕ → SinkEvent

-- What the sink_event of the parent class answers, what it leaves in its own fields of the pad and of
-- the muxer, and whether it calls the flush function of the pad, and of the muxer, which resets it.
pub record Handled : Type 0 where
  pub accepted : Bool
  pub segment : Segment
  pub queued : Option Buffer
  pub is_eos : Bool
  pub flushes : Bool
  pub src_segment : Segment
  pub resets : Bool

abbrev pub Parent : Type 0 → Type 0
Parent D = Kind → SinkEvent → Mux D → Handled

abbrev pub take_handled : Handled → MuxPad → MuxPad
take_handled h pad =
    let handled = record pad { segment = h.segment; queued = h.queued; is_eos = h.is_eos } in
    if h.flushes then pad_flush handled else handled

abbrev pub handled_pad : Handled → Option MuxPad → Option MuxPad
handled_pad h none = none
handled_pad h (some pad) = some (take_handled h pad)

module _ {D : Type 0} where
  -- What is done for a new pad once the parent class has made it.
  unfoldable pub add_pad : Kind → MuxPad → Mux D → Mux D
  unfolding set_pad reset_pad
  add_pad kind fresh mux = record (set_pad kind (some (reset_pad fresh)) mux) {
    sinkpads = mux.sinkpads ++ (kind ∷ []);
  }

  -- `made` is what the parent class returns. The pad is the kind, and `none` is NULL.
  unfoldable pub create_new_pad : Template → Option MuxPad → Mux D → Option Kind × Mux D
  create_new_pad invalid made mux = (none, mux)
  create_new_pad (sink kind) made mux = elim mux.state [
    | data_state ↦ (none, mux)
    | header_state ↦
        (if is_some (get_pad kind mux)
          then (none, mux)
          else elim made [ none ↦ (none, mux) | some fresh ↦ (some kind, add_pad kind fresh mux) ])
  ]

  unfoldable pub release_pad : Kind → Mux D → Mux D
  unfolding set_pad remove_kind
  release_pad kind mux = record (set_pad kind none mux) { sinkpads = remove_kind kind mux.sinkpads }

  -- `merge` is gst_tag_setter_merge_tags in the setter's mode. `none` is g_assert_not_reached.
  unfoldable pub pad_event :
      (MergeMode → List Tag → List Tag → List Tag) → Kind → SinkEvent → Option MuxPad → M D Bool
  unfolding set_pad
  pad_event merge kind (other_event n) pad mux = some (true, mux)
  pad_event merge kind (caps_event caps) none mux = none
  pad_event merge kind (caps_event caps) (some pad) mux =
      some ((pad_setcaps kind pad caps).1, set_pad kind (some (pad_setcaps kind pad caps).0) mux)
  pad_event merge kind (tag_event list) none mux = none
  pad_event merge kind (tag_event list) (some pad) mux = some (
    true,
    record (set_pad kind (some (store_codec_tags list pad)) mux) {
      tags = merge mux.tag_merge_mode mux.tags list;
      new_tags = true;
    },
  )

  unfoldable pub parent_event : Parent D → Kind → SinkEvent → Mux D → Bool × Mux D
  unfolding get_pad set_pad pad_flush reset
  parent_event parent kind event mux =
      let h = parent kind event mux in
      let handled = record (set_pad kind (handled_pad h (get_pad kind mux)) mux) {
        src_segment = h.src_segment;
      } in
      (h.accepted, if h.resets then reset handled else handled)

  -- The parent class goes on where the event was not refused, and its answer is the answer.
  abbrev pub then_parent :
      Parent D → Kind → SinkEvent → Option (Bool × Mux D) → Option (Bool × Mux D)
  then_parent parent kind event none = none
  then_parent parent kind event (some (false, mux)) = some (false, mux)
  then_parent parent kind event (some (true, mux)) = some (parent_event parent kind event mux)

  unfoldable pub sink_event :
      (MergeMode → List Tag → List Tag → List Tag) → Parent D → Kind → SinkEvent → M D Bool
  unfolding get_pad parent_event
  sink_event merge parent kind event mux =
      then_parent parent kind event (pad_event merge kind event (get_pad kind mux) mux)

  -- The property `streamable` also chooses how tags are merged.
  unfoldable pub set_streamable : Bool → Mux D → Mux D
  set_streamable b mux = record mux { streamable = b; tag_merge_mode = if b then replace else keep }

  -- NULL asks for the default.
  unfoldable pub set_metadatacreator : Bytes → Option Bytes → Mux D → Mux D
  set_metadatacreator default none mux = record mux { metadatacreator = default }
  set_metadatacreator default (some s) mux = record mux { metadatacreator = s }
