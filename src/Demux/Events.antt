-- ===== src/Demux/Events.antt =====
-- gst_flv_demux_sink_event, gst_flv_demux_src_event, gst_flv_demux_sink_activate,
-- gst_flv_demux_sink_activate_mode and gst_flv_demux_change_state.
use ubox_publisher.Common.{ℕ, Bool, true, false, not, ◌&&◌, Option, none, some, if◌then◌else◌}
use ubox_publisher.Gst.Platform.{Platform}
use ubox_publisher.Demux.State.{
  DemuxSegment, SeekEvent, Stream, send_flush_start, send_flush_stop, send_eos, forward_segment,
  forward_upstream, handle_default, reset_flows, start_task, stop_task, post_error, send,
}
use ubox_publisher.Demux.Env.{Env}
use ubox_publisher.Demux.Send.{State, push_src_event}
use ubox_publisher.Demux.Seek.{flush, cleanup, forward, seek_push}
use ubox_publisher.Demux.Pull.Sections.{handle_seek_pull}
use ubox_publisher.Demux.Pull.Loop.{signal_pads}

-- Events from upstream: a segment with whether it is in GST_FORMAT_TIME, and the ones that the pad
-- handles by default.
pub data SinkEvent : Type 0 where
  flush_start_event flush_stop_event eos_event : SinkEvent
  segment_event : Bool → DemuxSegment → SinkEvent
  other_event : ℕ → SinkEvent

-- Events from downstream.
pub data SrcEvent : Type 0 where
  seek_event : SeekEvent → SrcEvent
  other_src_event : ℕ → SrcEvent

pub data PadMode : Type 0 where
  push_mode pull_mode no_mode : PadMode

pub data Transition : Type 0 where
  ready_to_paused paused_to_ready other_transition : Transition

-- The mode in which the pad is activated, by the peer's answer to the scheduling query, if it has one:
-- whether it can be pulled from, and is seekable.
unfoldable pub sink_activate : Option Bool → PadMode
sink_activate none = push_mode
sink_activate (some true) = pull_mode
sink_activate (some false) = push_mode

abbrev pub wants_segment : Stream → Stream
wants_segment s = record s { need_segment = true }

module _ (p : Platform) (e : Env p) where
  open e use {neighbours}

  -- gst_index_commit is left out: the class of the memory index has nothing for it.
  unfoldable pub sink_eos : State p e → State p e
  unfolding push_src_event
  sink_eos demux =
      if not demux.audio_stream.pad && not demux.video_stream.pad
      then send post_error demux
      else push_src_event p e send_eos (signal_pads p e demux)

  -- A segment in time is the demuxer's and goes on; another one is not.
  unfoldable pub sink_segment : Bool → DemuxSegment → State p e → State p e
  unfolding push_src_event
  sink_segment true segment demux =
      send reset_flows
        (push_src_event p e (λ k. forward_segment k segment) (record demux { segment = segment }))
  sink_segment false segment demux = send reset_flows (record demux {
    audio_stream = wants_segment demux.audio_stream;
    video_stream = wants_segment demux.video_stream;
    new_seg_event = none;
  })

  -- The result of an event that goes to the source pads is always TRUE. The adapter is cleared with
  -- the end of a flush.
  unfoldable pub sink_event : SinkEvent → State p e → Bool × State p e
  unfolding sink_eos sink_segment push_src_event flush
  sink_event flush_start_event demux =
      (true, push_src_event p e send_flush_start (record demux { flushing = true }))
  sink_event flush_stop_event demux = (true, push_src_event p e send_flush_stop (flush p e demux))
  sink_event eos_event demux = (true, sink_eos demux)
  sink_event (segment_event is_time segment) demux = (true, sink_segment is_time segment demux)
  sink_event (other_event n) demux =
      let handled = send (handle_default n) demux in
      (neighbours.event_accepted handled.sent, handled)

  -- A seek goes upstream first.
  unfoldable pub src_event : SrcEvent → State p e → Bool × State p e
  unfolding handle_seek_pull seek_push
  src_event (seek_event event) demux =
      let (accepted, asked) = forward p e event demux in
      if accepted
      then (true, asked)
      else if asked.random_access
      then handle_seek_pull p e event true asked
      else seek_push p e event asked
  src_event (other_src_event n) demux =
      let sent = send (forward_upstream n) demux in (neighbours.event_accepted sent.sent, sent)

  abbrev pub switch_task : Bool → State p e → Bool × State p e
  switch_task active demux =
      let switched =
        send (if active then start_task else stop_task) (record demux { random_access = active }) in
      (neighbours.event_accepted switched.sent, switched)

  unfoldable pub sink_activate_mode : PadMode → Bool → State p e → Bool × State p e
  sink_activate_mode push_mode active demux = (true, record demux { random_access = false })
  sink_activate_mode pull_mode active demux = switch_task active demux
  sink_activate_mode no_mode active demux = (false, demux)

  abbrev pub drop_own : State p e → State p e
  drop_own demux =
      if demux.own_index then record demux { index = none; own_index = false } else demux

  -- `new_index` is a new memory index in which the demuxer is a writer.
  abbrev pub own_new : e.index.Index → State p e → State p e
  own_new new_index demux = elim demux.index [
    | none ↦ record demux { index = some new_index; own_index = true }
    | some i ↦ demux
  ]

  -- `is_failure` is the answer of the parent class.
  unfoldable pub change_state : Transition → e.index.Index → Bool → State p e → State p e
  unfolding cleanup
  change_state ready_to_paused new_index is_failure demux =
      cleanup p e (own_new new_index (drop_own demux))
  change_state paused_to_ready new_index is_failure demux =
      if is_failure then demux else cleanup p e demux
  change_state other_transition new_index is_failure demux = demux
