-- ===== src/Demux/Pull/Loop/Ends.antt =====
-- The end of gst_flv_demux_loop's task, with GST_FLOW_EOS.
use ubox_publisher.Common.{ℕ, ◌≡◌, Bool, true, false, ◌==◌, if◌then◌else◌}
use ubox_publisher.Gst.Platform.{Platform}
use ubox_publisher.Mux.State.{Kind}
use ubox_publisher.Demux.State.{DemuxSegment, Action, post_error, send_segment_done, send_eos, send}
use ubox_publisher.Demux.Env.{Env}
use ubox_publisher.Demux.Send.{State, push_src_event}
use ubox_publisher.Demux.Pull.Loop.{segment_done, segment_end}
use ubox_publisher.Demux.Pull.Loop.Pushes.{Did}

-- Where a segment ends that is played in its direction: backwards at its start, and forwards at its
-- stop, or at its duration where the stop is -1.
abbrev pub end_of : DemuxSegment → ℕ
end_of segment = elim segment.backwards [
  | true ↦ segment.start
  | false ↦ elim (segment.stop == 18446744073709551615) [
    | true ↦ segment.duration
    | false ↦ segment.stop
  ]
]

-- What the code sends to end a stream.
abbrev done_event : DemuxSegment → Kind → Action
done_event segment k =
    if segment.is_segment then send_segment_done k (segment_end segment) else send_eos k

-- The event that ends a stream downstream: the end of the segment that was asked for, or EOS.
abbrev pub last_event : DemuxSegment → Kind → Action
last_event segment k =
    if segment.is_segment then send_segment_done k (end_of segment) else send_eos k

module _ (p : Platform) (e : Env p) where
  -- What finish_stream does once the pads are signalled p e.
  abbrev finished : State p e → Bool → Bool → State p e
  finished placed is_segment no_pads =
      if is_segment
      then segment_done p e (segment_end placed.segment) placed
      else if no_pads
      then send post_error placed
      else push_src_event p e send_eos placed

  -- The pads are signalled p e, and two actions were done.
  abbrev pub Told : Action → Action → State p e → Type 0
  Told a event d = (d.no_more_pads ≡ true) × (Did p e a d × Did p e event d)
