-- ===== src/Demux/Video/Opens.antt =====
-- What is sent in front of a video frame.
use ubox_publisher.Common.{
  ℕ, ◌≡◌, ◌⊎◌, refl, ap, ◌∙◌, inl, inr, Bool, true, false, Option, none, some, List, ◌∷◌,
  if◌then◌else◌,
}
use ubox_publisher.Gst.Platform.{Platform}
use ubox_publisher.Mux.State.{video}
use ubox_publisher.Demux.State.{
  DemuxSegment, Action, send_segment, no_more_pads, send, get_stream, set_stream, add_index_entry,
  add_if_new, parse_and_add_index_entry,
}
use ubox_publisher.Demux.Env.{Env}
use ubox_publisher.Demux.Send.{State}
use ubox_publisher.Demux.Push.{
  change, note_duration, make_segment, push_segment, signal_if_late, note_start, before_push,
}

module _ (p : Platform) (e : Env p) where
  -- The same was sent, and the video stream needs a segment in both or in none.
  abbrev Same : State p e → State p e → Type 0
  Same s t = (t.sent ≡ s.sent) × (t.video_stream.need_segment ≡ s.video_stream.need_segment)

  if_Same : (b : Bool) (s x y : State p e) → Same s x → Same s y → Same s (if b then x else y)
  if_Same true s x y hx hy = hx
  if_Same false s x y hx hy = hy

  note_duration-Same : (ts : ℕ) (s : State p e) → Same s (note_duration p e ts s)
  unfolding note_duration
  note_duration-Same ts s = if_Same _ s _ s (refl, refl) (refl, refl)

  add_if_new-Same :
      (ts pos : ℕ) (keyframe : Bool) (o : Option e.index.Index) (s : State p e)
      → Same s (add_if_new e.index ts pos keyframe o s)
  unfolding add_if_new add_index_entry
  add_if_new-Same ts pos keyframe none s = (refl, refl)
  add_if_new-Same ts pos keyframe (some index) s = if_Same _ s _ _ (refl, refl) (refl, refl)

  entry-Same :
      (ts pos : ℕ) (keyframe : Bool) (s : State p e)
      → Same s (parse_and_add_index_entry e.index ts pos keyframe s)
  unfolding parse_and_add_index_entry
  entry-Same ts pos keyframe s =
      if_Same _ s _ s (add_if_new-Same ts pos keyframe s.index s) (refl, refl)

  make_segment-sent : (s : State p e) → (make_segment p e s).1.sent ≡ s.sent
  unfolding make_segment
  make_segment-sent s = either s.new_seg_event
    where
      either :
          (o : Option DemuxSegment)
          → (elim o as (λ o. DemuxSegment × State p e) [
            | some segment ↦ (segment, s)
            | none ↦
                let segment : DemuxSegment = record s.segment {
                  start = s.segment.position;
                  time = s.segment.position;
                } in
                (segment, record s { segment = segment; new_seg_event = some segment })
          ]).1.sent
            ≡ s.sent
      either none = refl
      either (some segment) = refl

  -- What was sent, with the segment in front if the video stream needs one.
  abbrev pub opened : State p e → DemuxSegment → List Action
  opened s segment =
      if s.video_stream.need_segment then send_segment video segment ∷ s.sent else s.sent

  push_segment-opened :
      (s : State p e) → (push_segment p e video s).sent ≡ opened s (make_segment p e s).0
  unfolding push_segment get_stream set_stream
  push_segment-opened s = either s.video_stream.need_segment
    where
      segment : DemuxSegment
      segment = (make_segment p e s).0

      either :
          (b : Bool)
          → (if b
              then change p e video
                  (λ t. record t { need_segment = false })
                  (send (send_segment video segment) (make_segment p e s).1)
              else s).sent
            ≡ (if b then send_segment video segment ∷ s.sent else s.sent)
      either true = ap (λ x. send_segment video segment ∷ x) (make_segment-sent s)
      either false = refl

  -- Only the segment comes in front of a frame, where one is needed, and then maybe the signal that
  -- there are no more pads.
  abbrev pub OpenedIf : Bool → List Action → List Action → Type 0
  OpenedIf needed sent before =
      (segment : DemuxSegment) × ((before
          ≡ (if needed then send_segment video segment ∷ sent else sent))
        ⊎ (before ≡ no_more_pads ∷ (if needed then send_segment video segment ∷ sent else sent)))

  abbrev pub Opened : State p e → List Action → Type 0
  Opened s before = OpenedIf s.video_stream.need_segment s.sent before

  late_sent :
      (b : Bool) (s t : State p e) (segment : DemuxSegment)
      → t.sent ≡ opened s segment
      → Opened s (if b then record (send no_more_pads t) { no_more_pads = true } else t).sent
  late_sent true s t segment q = (segment, inr (ap (λ x. no_more_pads ∷ x) q))
  late_sent false s t segment q = (segment, inl q)

  Same-opened :
      (s t : State p e) (segment : DemuxSegment) → Same s t → opened t segment ≡ opened s segment
  Same-opened s t segment (q, n) =
      ap (λ b. if b then send_segment video segment ∷ t.sent else t.sent) n
      ∙ ap (λ x. if s.video_stream.need_segment then send_segment video segment ∷ x else x) q

  pub before_push-Opened :
      (indexes : State p e → Bool) (keyframe : Bool) (ts : ℕ) (s : State p e)
      → Opened s (before_push p e video indexes keyframe ts s).sent
  unfolding before_push signal_if_late note_start get_stream set_stream
  before_push-Opened indexes keyframe ts s =
      let d1 = note_duration p e ts s in
      let d2 =
        if indexes d1
        then parse_and_add_index_entry e.index ts d1.cur_tag_offset keyframe d1
        else d1 in
      let d3 = change p e video (λ t. record t { need_discont = false }) d2 in
      let d4 = record d3 { segment = record d3.segment { position = ts } } in
      let (q1, n1) = note_duration-Same ts s in
      let (q2, n2) =
        if_Same (indexes d1) d1 _ d1 (entry-Same ts d1.cur_tag_offset keyframe d1) (refl, refl) in
      late_sent _ s (note_start p e video ts (push_segment p e video d4)) (make_segment p e d4).0
        (push_segment-opened d4 ∙ Same-opened s d4 (make_segment p e d4).0 (q2 ∙ q1, n2 ∙ n1))
