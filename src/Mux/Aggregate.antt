-- ===== src/Mux/Aggregate.antt =====
-- gst_flv_mux_aggregate and gst_flv_mux_get_next_time.
pub mod End
pub mod Write
pub mod Round
pub mod Life
use ubox_publisher.Common.{
  ℕ, ◌^◌, Bool, true, false, not, ◌&&◌, ◌||◌, Option, none, some, List, [], ◌∷◌, ltb, ◌==◌,
  if◌then◌else◌, sub64,
}
use ubox_publisher.Common.Memory.{Bytes}
use ubox_publisher.Gst.Numbers.{
  clock_time_none, clock_stime_none, is_valid, is_valid_stime, stime_to_msecs, max_int32, max_uint,
}
use ubox_publisher.Gst.Data.{
  Buffer, Segment, FlowReturn, ok, eos, error, is_ok, dts_or_pts, new_buffer,
}
use ubox_publisher.Gst.Platform.{Platform}
use ubox_publisher.Mux.State.{
  Kind, MuxPad, Mux, MuxState, header_state, data_state, M, get_pad, set_pad, ◌>>=◌, ◌>>◌, pure,
  gets, modify,
}
use ubox_publisher.Mux.Push.{Peers, push, running_time}
use ubox_publisher.Mux.Index.{rewrite_header}
use ubox_publisher.Mux.Caps.{is_some}
use ubox_publisher.Mux.Run.{
  BestPad, metadata_tag, write_header, write_buffer, are_all_pads_eos, write_eos, find_best_pad,
}

-- What is popped from the best pad: the pad with its new times, the buffer, and `best_time`.
pub record Picked : Type 0 where
  pub kind : Kind
  pub pad : MuxPad
  pub buffer : Buffer
  pub best_time : ℕ

abbrev pub is_empty : List Kind → Bool
is_empty [] = true
is_empty (k ∷ ks) = false

module _ (p : Platform) (peers : Peers) where
  open p use {Double}

  -- The time that the output counts from.
  unfoldable pub first_time : BestPad → ℕ
  first_time (none, ts) = 0
  first_time (some kind, ts) = if is_valid_stime ts then ts else 0

  -- `false` is an early return: there is no pad, or the header could not be pushed.
  unfoldable pub enter_data : FlowReturn → M Double (Bool × FlowReturn)
  enter_data ret =
      if is_ok ret
      then (do
        modify (λ m. record m { state = data_state })
        modify (λ m. record m { first_timestamp = first_time (find_best_pad p peers m) })
        pure (true, ok))
      else pure (false, ret)

  unfoldable pub start_in : MuxState → M Double (Bool × FlowReturn)
  start_in data_state mux = some ((true, ok), mux)
  start_in header_state mux =
      if is_empty mux.sinkpads
      then some ((false, error), mux)
      else (do ret ← write_header p peers; enter_data ret) mux

  abbrev pub start : M Double (Bool × FlowReturn)
  start mux = start_in mux.state mux

  abbrev pub push_if_any : Option Bytes → M Double (Unit {0})
  push_if_any none = pure tt
  push_if_any (some bytes) = do push peers (new_buffer bytes); pure tt

  -- New tags are written out; what the push returns is not looked at.
  unfoldable pub push_new_tags : M Double (Unit {0})
  push_new_tags mux =
      if mux.new_tags
      then (do
        tag ← metadata_tag p peers false
        push_if_any tag
        modify (λ m. record m { new_tags = false }))
          mux
      else some (tt, mux)

  -- The pad's new dts and pts.
  unfoldable pub retime : MuxPad → Buffer → MuxPad
  unfolding running_time
  retime pad buffer =
      let dts = running_time p pad.segment (dts_or_pts buffer) in
      record pad {
        queued = none;
        dts = dts;
        pts = if is_valid buffer.pts then running_time p pad.segment buffer.pts else dts;
      }

  -- gst_aggregator_pad_pop_buffer, and g_assert (buffer).
  unfoldable pub pop_queued : Kind → MuxPad → Option Buffer → M Double (Option Picked)
  pop_queued kind pad none mux = none
  pop_queued kind pad (some buffer) mux =
      let pad' = retime pad buffer in
      some (
        some (record {
          kind = kind;
          pad = pad';
          buffer = buffer;
          best_time =
              if is_valid_stime pad'.dts
              then sub64 pad'.dts mux.first_timestamp
              else clock_stime_none;
        }),
        set_pad kind (some pad') mux,
      )

  unfoldable pub pop_from : Kind → Option MuxPad → M Double (Option Picked)
  pop_from kind none mux = none
  pop_from kind (some pad) mux = pop_queued kind pad pad.queued mux

  unfoldable pub pop_best : Option Kind → M Double (Option Picked)
  pop_best none mux = some (none, mux)
  pop_best (some kind) mux = pop_from kind (get_pad kind mux) mux

  -- A timestamp that FLV cannot hold, in a file. The times are signed.
  unfoldable pub too_large : Bool → ℕ → Bool
  too_large streamable best_time =
      not streamable
      && is_valid_stime best_time
      && (ltb best_time (2 ^ 63) && ltb max_int32 (stime_to_msecs best_time))

  unfoldable pub finish : M Double FlowReturn
  finish mux =
      if are_all_pads_eos p peers mux mux.sinkpads
      then (do write_eos p peers; rewrite_header p peers; pure eos) mux
      else some (ok, mux)

  unfoldable pub write_best : Option Picked → M Double FlowReturn
  write_best none mux = finish mux
  write_best (some picked) mux =
      if too_large mux.streamable picked.best_time
      then finish mux
      else write_buffer p peers picked.kind picked.pad picked.buffer mux

  unfoldable pub mux_best : Bool × FlowReturn → M Double FlowReturn
  mux_best (false, ret) mux = some (ret, mux)
  mux_best (true, _) mux =
      (do
        best ← gets (λ m. (find_best_pad p peers m).0)
        push_new_tags
        picked ← pop_best best
        write_best picked)
        mux

  unfoldable pub aggregate : M Double FlowReturn
  aggregate = do started ← start; mux_best started

  unfoldable pub next_time_for_segment : Segment → ℕ
  next_time_for_segment segment =
      let from : ℕ =
        if segment.position == clock_time_none || ltb segment.position segment.start
        then segment.start
        else segment.position in
      let to : ℕ =
        if not (segment.stop == clock_time_none) && ltb segment.stop from
        then segment.stop
        else from in
      p.segment_to_running_time segment to

  abbrev lacks_codec : Option MuxPad → Bool
  lacks_codec none = false
  lacks_codec (some pad) = pad.codec == max_uint

  abbrev has_buffer : Option MuxPad → Bool
  has_buffer none = false
  has_buffer (some pad) = is_some pad.queued

  abbrev in_header : MuxState → Bool
  in_header header_state = true
  in_header data_state = false

  -- Until the header is written every pad must have its caps, and then one pad a buffer.
  unfoldable pub get_next_time : Mux Double → ℕ
  unfolding next_time_for_segment
  get_next_time mux =
      if in_header mux.state && (lacks_codec mux.audio_pad || lacks_codec mux.video_pad)
      then clock_time_none
      else if not (has_buffer mux.audio_pad || has_buffer mux.video_pad)
      then clock_time_none
      else next_time_for_segment mux.src_segment
