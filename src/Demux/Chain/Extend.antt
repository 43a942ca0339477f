-- ===== src/Demux/Chain/Extend.antt =====
-- A turn of the loop that goes on does the same with more bytes behind the adapter's.
use ubox_publisher.Common.{
  ℕ, ◌≡◌, refl, Bool, true, false, not, ◌&&◌, Bool-cases, inl, inr, Option, none, some, leb, leb→le,
  ◌==◌, if◌then◌else◌, length, length-append, take-below, drop-below, le→leb, drop, take, ◌++◌,
  sub64, arith,
}
use ubox_publisher.Common.Memory.{Bytes}
use ubox_publisher.Gst.Data.{FlowReturn, ok, error}
use ubox_publisher.Gst.Platform.{Platform}
use ubox_publisher.Demux.State.{
  DemuxState, header_state, tag_type_state, tag_video_state, tag_audio_state, tag_script_state,
  seek_state, done_state, skip_state, none_state, SeekEvent,
}
use ubox_publisher.Demux.Header.{parse_header, parse_tag_type}
use ubox_publisher.Demux.Env.{Env}
use ubox_publisher.Demux.Send.{State}
use ubox_publisher.Demux.Metadata.{parse_tag_script}
use ubox_publisher.Demux.Audio.{parse_tag_audio, is_none}
use ubox_publisher.Demux.Video.{parse_tag_video}
use ubox_publisher.Demux.Seek.{handle_seek_push}
use ubox_publisher.Demux.Chain.{
  Turn, again, waits, answers, undefined, header_size, tag_type_size, take_and, run, next_tag,
  no_index, header_turn, tag_type_turn, tag_turn, script_turn, skip_turn, last_tag_turn, seek_now,
  seek_turn, state_turn, is_script,
}
use ubox_publisher.Demux.Chain.Total.{is_again}

module _ {S : Type 0} (b : Bytes) where
  -- More bytes behind the adapter's.
  unfoldable pub extend : Turn S → Turn S
  extend (again ret adapter demux) = again ret (adapter ++ b) demux
  extend (waits adapter demux) = waits (adapter ++ b) demux
  extend (answers ret adapter demux) = answers ret (adapter ++ b) demux
  extend undefined = undefined

  if_extend :
      (c : Bool) (x y x' y' : Turn S)
      → x' ≡ extend x
      → y' ≡ extend y
      → (if c then x' else y') ≡ extend (if c then x else y)
  if_extend true x y x' y' hx hy = hx
  if_extend false x y x' y' hx hy = hy

pub not_again :
    {S : Type 0} (c : Bool) (x y : Turn S)
    → is_again x ≡ false
    → is_again y ≡ false
    → is_again (if c then x else y) ≡ false
not_again true x y hx hy = hx
not_again false x y hx hy = hy

module _ (p : Platform) (e : Env p) (b : Bytes) where
  open e use {readers, index}

  take_and-extend :
      (n : ℕ) (adapter : Bytes) (demux : State p e) (f : Bytes → Bytes → Turn (State p e))
      → ((bs rest : Bytes) → f bs (rest ++ b) ≡ extend b (f bs rest))
      → is_again (take_and p e n adapter demux f) ≡ true
      → take_and p e n (adapter ++ b) demux f ≡ extend b (take_and p e n adapter demux f)
  unfolding take_and
  take_and-extend n adapter demux f h more' = elim (Bool-cases (leb n (length adapter))) [
    | inl l ↦
        let le = leb→le n (length adapter) l in
        let longer : leb n (length (adapter ++ b)) ≡ true =
          le→leb _ _ (omega (arith, length-append adapter b)) in
        rw (l, longer, take-below n adapter b le, drop-below n adapter b le)
          (h (take n adapter) (drop n adapter))
    | inr l ↦
        let none' : is_again (
              if leb n (length adapter)
              then f (take n adapter) (drop n adapter)
              else waits adapter demux)
            ≡ false =
          rw l refl in
        absurd (cc (none', more'))
  ]

  run-extend :
      (o : Option (FlowReturn × State p e)) (f f' : FlowReturn → State p e → Turn (State p e))
      → ((ret : FlowReturn) (demux : State p e) → f' ret demux ≡ extend b (f ret demux))
      → run p e o f' ≡ extend b (run p e o f)
  unfolding extend
  run-extend none f f' h = refl
  run-extend (some (ret, demux)) f f' h = h ret demux

  again_extend :
      (ret : FlowReturn) (adapter : Bytes) (demux : State p e)
      → again ret (adapter ++ b) demux ≡ extend b (again ret adapter demux)
  unfolding extend
  again_extend ret adapter demux = refl

  no_index-extend :
      (adapter : Bytes) (demux : State p e)
      → no_index p e (adapter ++ b) demux ≡ extend b (no_index p e adapter demux)
  unfolding extend no_index
  no_index-extend adapter demux = refl

  tag_turn-extend :
      (parse : Bytes → State p e → Option (FlowReturn × State p e)) (adapter : Bytes)
      (demux : State p e)
      → is_again (tag_turn p e parse adapter demux) ≡ true
      → tag_turn p e parse (adapter ++ b) demux ≡ extend b (tag_turn p e parse adapter demux)
  tag_turn-extend parse adapter demux =
      take_and-extend demux.tag_size adapter demux _
        λ bs rest. run-extend (parse bs demux) _ _ λ ret demux'. again_extend ret rest _

  script_turn-extend :
      (adapter : Bytes) (demux : State p e)
      → is_again (script_turn p e adapter demux) ≡ true
      → script_turn p e (adapter ++ b) demux ≡ extend b (script_turn p e adapter demux)
  unfolding script_turn
  script_turn-extend adapter demux = take_and-extend demux.tag_size adapter demux _ λ bs rest.
      run-extend (parse_tag_script p e bs demux) _ _ λ ret demux'.
        if_extend b (is_none demux'.seek_event) _ _ _ _ (again_extend ret rest _)
          (if_extend b demux'.indexed _ _ _ _ (again_extend ret rest _) (no_index-extend rest _))

  tag_type_turn-extend :
      (adapter : Bytes) (demux : State p e)
      → is_again (tag_type_turn p e adapter demux) ≡ true
      → tag_type_turn p e (adapter ++ b) demux ≡ extend b (tag_type_turn p e adapter demux)
  unfolding tag_type_turn
  tag_type_turn-extend adapter demux = take_and-extend tag_type_size adapter demux _ λ bs rest.
      run-extend (parse_tag_type p readers index bs _) _ _ λ ret demux'.
        if_extend b (not (is_none demux'.seek_event) && not (is_script demux'.state)) _ _ _ _
          (no_index-extend rest _) (again_extend ret rest _)

  no_index_ends :
      (adapter : Bytes) (demux : State p e) → is_again (no_index p e adapter demux) ≡ false
  unfolding no_index
  no_index_ends adapter demux = refl

  seek_now_ends :
      (event : Option SeekEvent) (adapter : Bytes) (demux : State p e)
      → is_again (seek_now p e event adapter demux) ≡ false
  seek_now_ends none adapter demux = refl
  seek_now_ends (some event) adapter demux =
      let (done, next) = handle_seek_push p e event (record demux { seek_event = none }) in
      not_again done (answers ok adapter (next_tag p e next)) (answers error adapter next) refl refl

  seek_turn_ends :
      (adapter : Bytes) (demux : State p e) → is_again (seek_turn p e adapter demux) ≡ false
  unfolding seek_turn last_tag_turn
  seek_turn_ends adapter demux =
      not_again demux.indexed _ _ (seek_now_ends demux.seek_event adapter demux) (
        not_again (demux.offset == sub64 demux.file_size 4) _ _
          (not_again (leb 4 (length adapter)) _ _ refl (no_index_ends adapter demux))
          (no_index_ends adapter demux))

  pub state_turn-extend :
      (s : DemuxState) (adapter : Bytes) (demux : State p e)
      → is_again (state_turn p e s adapter demux) ≡ true
      → state_turn p e s (adapter ++ b) demux ≡ extend b (state_turn p e s adapter demux)
  unfolding state_turn header_turn skip_turn
  state_turn-extend header_state adapter demux =
      take_and-extend header_size adapter demux _ λ bs rest.
        run-extend (parse_header p readers index (e.upstream demux.sent) bs demux) _ _
          λ ret demux'. again_extend ret rest _
  state_turn-extend tag_type_state adapter demux = tag_type_turn-extend adapter demux
  state_turn-extend tag_video_state adapter demux =
      tag_turn-extend (parse_tag_video p e) adapter demux
  state_turn-extend tag_audio_state adapter demux =
      tag_turn-extend (parse_tag_audio p e) adapter demux
  state_turn-extend tag_script_state adapter demux = script_turn-extend adapter demux
  state_turn-extend seek_state adapter demux = λ h. absurd (cc (h, seek_turn_ends adapter demux))
  state_turn-extend skip_state adapter demux =
      take_and-extend demux.tag_size adapter demux _ λ bs rest. again_extend ok rest _
  state_turn-extend done_state adapter demux = λ h. cc
  state_turn-extend none_state adapter demux = λ h. cc
