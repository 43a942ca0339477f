-- ===== src/Demux/Chain/Idle.antt =====
-- A turn of the loop that waits for bytes has done nothing.
use ubox_publisher.Common.{
  ℕ, ◌≡◌, refl, sym, ap, ◌∙◌, Bool, true, false, not, ◌&&◌, Bool-cases, inl, inr, Option, none,
  some, leb, ◌==◌, if◌then◌else◌, length, drop, take, sub64,
}
use ubox_publisher.Common.Memory.{Bytes}
use ubox_publisher.Gst.Data.{FlowReturn, ok, eos, error, flushing, other}
use ubox_publisher.Gst.Platform.{Platform}
use ubox_publisher.Demux.State.{
  DemuxState, header_state, tag_type_state, tag_video_state, tag_audio_state, tag_script_state,
  seek_state, done_state, skip_state, none_state, SeekEvent,
}
use ubox_publisher.Demux.Header.{parse_header, parse_tag_type}
use ubox_publisher.Demux.Env.{Env}
use ubox_publisher.Demux.Send.{State}
use ubox_publisher.Demux.Metadata.{parse_tag_script}
use ubox_publisher.Demux.Audio.{parse_tag_audio, is_none}
use ubox_publisher.Demux.Video.{parse_tag_video}
use ubox_publisher.Demux.Seek.{handle_seek_push}
use ubox_publisher.Demux.Chain.{
  Turn, again, waits, answers, undefined, header_size, tag_type_size, take_and, run, next_tag,
  no_index, header_turn, tag_type_turn, tag_turn, script_turn, skip_turn, last_tag_turn, seek_now,
  seek_turn, state_turn, turn, is_script,
}

abbrev pub is_waits : {S : Type 0} → Turn S → Bool
is_waits (waits adapter demux) = true
is_waits _ = false

no_wait :
    {S : Type 0} (c : Bool) (x y : Turn S)
    → is_waits x ≡ false
    → is_waits y ≡ false
    → is_waits (if c then x else y) ≡ false
no_wait true x y hx hy = hx
no_wait false x y hx hy = hy

module _ (p : Platform) (e : Env p) where
  open e use {readers, index}

  abbrev pub Idle : Bytes → State p e → Turn (State p e) → Type 0
  Idle adapter demux t =
      (adapter' : Bytes) (demux' : State p e)
      → t ≡ waits adapter' demux'
      → (adapter ≡ adapter') × (demux ≡ demux')

  Idle-if_not :
      (adapter : Bytes) (demux : State p e) (t : Turn (State p e))
      → is_waits t ≡ false
      → Idle adapter demux t
  Idle-if_not adapter demux (waits a d) h adapter' demux' w = absurd cc
  Idle-if_not adapter demux (again ret a d) h adapter' demux' w = cc
  Idle-if_not adapter demux (answers ret a d) h adapter' demux' w = cc
  Idle-if_not adapter demux undefined h adapter' demux' w = cc

  take_and-Idle :
      (n : ℕ) (adapter : Bytes) (demux : State p e) (f : Bytes → Bytes → Turn (State p e))
      → ((bs rest : Bytes) → is_waits (f bs rest) ≡ false)
      → Idle adapter demux (take_and p e n adapter demux f)
  unfolding take_and
  take_and-Idle n adapter demux f h adapter' demux' = elim (Bool-cases (leb n (length adapter))) [
    | inl l ↦ rw l (
        Idle-if_not adapter demux (f (take n adapter) (drop n adapter))
          (h (take n adapter) (drop n adapter)) adapter' demux')
    | inr l ↦ rw l (λ w. (cc, cc))
  ]

  run_no_wait :
      (o : Option (FlowReturn × State p e)) (f : FlowReturn → State p e → Turn (State p e))
      → ((ret : FlowReturn) (demux : State p e) → is_waits (f ret demux) ≡ false)
      → is_waits (run p e o f) ≡ false
  run_no_wait none f h = refl
  run_no_wait (some (ret, demux)) f h = h ret demux

  no_index_no_wait :
      (adapter : Bytes) (demux : State p e) → is_waits (no_index p e adapter demux) ≡ false
  unfolding no_index
  no_index_no_wait adapter demux = refl

  tag_turn-Idle :
      (parse : Bytes → State p e → Option (FlowReturn × State p e)) (adapter : Bytes)
      (demux : State p e)
      → Idle adapter demux (tag_turn p e parse adapter demux)
  tag_turn-Idle parse adapter demux =
      take_and-Idle demux.tag_size adapter demux _
        λ bs rest. run_no_wait (parse bs demux) _ λ ret demux'. refl

  script_turn-Idle :
      (adapter : Bytes) (demux : State p e) → Idle adapter demux (script_turn p e adapter demux)
  unfolding script_turn
  script_turn-Idle adapter demux = take_and-Idle demux.tag_size adapter demux _ λ bs rest.
      run_no_wait (parse_tag_script p e bs demux) _ λ ret demux'.
        no_wait (is_none demux'.seek_event) _ _ refl
          (no_wait demux'.indexed _ _ refl (no_index_no_wait rest _))

  tag_type_turn-Idle :
      (adapter : Bytes) (demux : State p e) → Idle adapter demux (tag_type_turn p e adapter demux)
  unfolding tag_type_turn
  tag_type_turn-Idle adapter demux = take_and-Idle tag_type_size adapter demux _ λ bs rest.
      run_no_wait (parse_tag_type p readers index bs _) _ λ ret demux'.
        no_wait (not (is_none demux'.seek_event) && not (is_script demux'.state)) _ _
          (no_index_no_wait rest _) refl

  seek_now_no_wait :
      (event : Option SeekEvent) (adapter : Bytes) (demux : State p e)
      → is_waits (seek_now p e event adapter demux) ≡ false
  seek_now_no_wait none adapter demux = refl
  seek_now_no_wait (some event) adapter demux =
      let (done, next) = handle_seek_push p e event (record demux { seek_event = none }) in
      no_wait done (answers ok adapter (next_tag p e next)) (answers error adapter next) refl refl

  seek_turn_no_wait :
      (adapter : Bytes) (demux : State p e) → is_waits (seek_turn p e adapter demux) ≡ false
  unfolding seek_turn last_tag_turn
  seek_turn_no_wait adapter demux =
      no_wait demux.indexed _ _ (seek_now_no_wait demux.seek_event adapter demux) (
        no_wait (demux.offset == sub64 demux.file_size 4) _ _
          (no_wait (leb 4 (length adapter)) _ _ refl (no_index_no_wait adapter demux))
          (no_index_no_wait adapter demux))

  state_turn-Idle :
      (s : DemuxState) (adapter : Bytes) (demux : State p e)
      → Idle adapter demux (state_turn p e s adapter demux)
  unfolding state_turn header_turn skip_turn
  state_turn-Idle header_state adapter demux = take_and-Idle header_size adapter demux _ λ bs rest.
      run_no_wait (parse_header p readers index (e.upstream demux.sent) bs demux) _
        λ ret demux'. refl
  state_turn-Idle tag_type_state adapter demux = tag_type_turn-Idle adapter demux
  state_turn-Idle tag_video_state adapter demux = tag_turn-Idle (parse_tag_video p e) adapter demux
  state_turn-Idle tag_audio_state adapter demux = tag_turn-Idle (parse_tag_audio p e) adapter demux
  state_turn-Idle tag_script_state adapter demux = script_turn-Idle adapter demux
  state_turn-Idle seek_state adapter demux =
      Idle-if_not adapter demux _ (seek_turn_no_wait adapter demux)
  state_turn-Idle skip_state adapter demux =
      take_and-Idle demux.tag_size adapter demux _ λ bs rest. refl
  state_turn-Idle done_state adapter demux = Idle-if_not adapter demux _ refl
  state_turn-Idle none_state adapter demux = Idle-if_not adapter demux _ refl

  pub turn-Idle :
      (ret : FlowReturn) (adapter : Bytes) (demux : State p e)
      → (adapter' : Bytes) (demux' : State p e) → turn p e ret adapter demux ≡ waits adapter' demux'
      → (ret ≡ ok) × (adapter ≡ adapter') × (demux ≡ demux')
  unfolding turn
  turn-Idle ok adapter demux adapter' demux' = elim (Bool-cases demux.flushing) [
    | inl f ↦ rw f (λ w. cc)
    | inr f ↦ λ w.
        let stays = state_turn-Idle demux.state adapter demux adapter' demux' (
          sym (
            ap
              (λ c.
                if c
                then answers flushing adapter demux
                else state_turn p e demux.state adapter demux)
              f)
          ∙ w) in
        (refl, stays.0, stays.1)
  ]
  turn-Idle eos adapter demux adapter' demux' = λ w. cc
  turn-Idle error adapter demux adapter' demux' = λ w. cc
  turn-Idle flushing adapter demux adapter' demux' = λ w. cc
  turn-Idle (other n) adapter demux adapter' demux' = λ w. cc
