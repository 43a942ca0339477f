-- ===== src/Demux/Chain/Total.antt =====
-- The loop of gst_flv_demux_chain ends.
use ubox_publisher.Common.{
  ℕ, zero, suc, ◌+◌, ◌*◌, ◌≤◌, ◌<◌, ◌≡◌, refl, subst, Bool, true, false, not, ◌&&◌, Bool-cases, inl,
  inr, Option, none, some, leb, leb→le, ◌==◌, if◌then◌else◌, length, length-drop, drop, take, sub64,
  arith,
}
use ubox_publisher.Common.Memory.{Bytes}
use ubox_publisher.Gst.Data.{FlowReturn, ok, eos, error, flushing, other}
use ubox_publisher.Gst.Platform.{Platform}
use ubox_publisher.Demux.State.{
  DemuxState, header_state, tag_type_state, tag_video_state, tag_audio_state, tag_script_state,
  seek_state, done_state, skip_state, none_state, SeekEvent,
}
use ubox_publisher.Demux.Header.{parse_header, parse_tag_type}
use ubox_publisher.Demux.Env.{Env}
use ubox_publisher.Demux.Send.{State}
use ubox_publisher.Demux.Metadata.{parse_tag_script}
use ubox_publisher.Demux.Audio.{parse_tag_audio, is_none}
use ubox_publisher.Demux.Video.{parse_tag_video}
use ubox_publisher.Demux.Seek.{handle_seek_push}
use ubox_publisher.Demux.Chain.{
  Turn, again, waits, answers, undefined, header_size, tag_type_size, take_and, run, next_tag,
  no_index, header_turn, tag_type_turn, tag_turn, script_turn, skip_turn, last_tag_turn, seek_now,
  seek_turn, state_turn, turn, more, parse_loop, parse_all, is_script,
}

-- Every state but these two takes at least no bytes, and leads to one of them.
abbrev pub stage : DemuxState → ℕ
stage tag_type_state = 0
stage seek_state = 0
stage _ = 1

abbrev pub is_again : {S : Type 0} → Turn S → Bool
is_again (again ret adapter demux) = true
is_again _ = false

pub stage-le : (s : DemuxState) → stage s ≤ 1
stage-le header_state = omega arith
stage-le tag_type_state = omega arith
stage-le tag_video_state = omega arith
stage-le tag_audio_state = omega arith
stage-le tag_script_state = omega arith
stage-le seek_state = omega arith
stage-le done_state = omega arith
stage-le skip_state = omega arith
stage-le none_state = omega arith

module _ (p : Platform) (e : Env p) where
  open e use {readers, index}

  -- Twice the bytes, and one for a state other than those.
  abbrev pub measure : Bytes → State p e → ℕ
  measure adapter demux = 2 * length adapter + stage demux.state

  unfoldable Below : ℕ → Turn (State p e) → Type 0
  Below m (again ret adapter demux) = measure adapter demux < m
  Below m (waits adapter demux) = Unit {0}
  Below m (answers ret adapter demux) = Unit {0}
  Below m undefined = Unit {0}

  again-Below :
      (m : ℕ) (ret : FlowReturn) (adapter : Bytes) (demux : State p e)
      → measure adapter demux < m
      → Below m (again ret adapter demux)
  unfolding Below
  again-Below m ret adapter demux h = h

  answers-Below :
      (m : ℕ) (ret : FlowReturn) (adapter : Bytes) (demux : State p e)
      → Below m (answers ret adapter demux)
  unfolding Below
  answers-Below m ret adapter demux = tt

  take_and-Below :
      (m n : ℕ) (adapter : Bytes) (demux : State p e) (f : Bytes → Bytes → Turn (State p e))
      → ((bs rest : Bytes) → length rest + n ≤ length adapter → Below m (f bs rest))
      → Below m (take_and p e n adapter demux f)
  unfolding take_and Below
  take_and-Below m n adapter demux f h = elim (Bool-cases (leb n (length adapter))) [
    | inl l ↦
        let le = leb→le n (length adapter) l in
        rw l (h (take n adapter) (drop n adapter) (omega (arith, length-drop n adapter)))
    | inr l ↦ rw l tt
  ]

  run-Below :
      (m : ℕ) (o : Option (FlowReturn × State p e)) (f : FlowReturn → State p e → Turn (State p e))
      → ((ret : FlowReturn) (demux : State p e) → Below m (f ret demux))
      → Below m (run p e o f)
  unfolding Below
  run-Below m none f h = tt
  run-Below m (some (ret, demux)) f h = h ret demux

  if_Below :
      (m : ℕ) (b : Bool) (x y : Turn (State p e))
      → Below m x
      → Below m y
      → Below m (if b then x else y)
  if_Below m true x y hx hy = hx
  if_Below m false x y hx hy = hy

  no_index-Below :
      (m : ℕ) (adapter : Bytes) (demux : State p e) → Below m (no_index p e adapter demux)
  unfolding no_index
  no_index-Below m adapter demux = answers-Below m ok adapter _

  tag_turn-Below :
      (parse : Bytes → State p e → Option (FlowReturn × State p e)) (adapter : Bytes)
      (demux : State p e)
      → Below (2 * length adapter + 1) (tag_turn p e parse adapter demux)
  tag_turn-Below parse adapter demux =
      take_and-Below (2 * length adapter + 1) demux.tag_size adapter demux _ λ bs rest h.
        run-Below (2 * length adapter + 1) (parse bs demux) _
          λ ret demux'. again-Below _ ret rest _ (omega arith)

  script_turn-Below :
      (adapter : Bytes) (demux : State p e)
      → Below (2 * length adapter + 1) (script_turn p e adapter demux)
  unfolding script_turn
  script_turn-Below adapter demux =
      take_and-Below (2 * length adapter + 1) demux.tag_size adapter demux _ λ bs rest h.
        run-Below (2 * length adapter + 1) (parse_tag_script p e bs demux) _ λ ret demux'.
          if_Below (2 * length adapter + 1) (is_none demux'.seek_event) _ _
            (again-Below _ ret rest _ (omega arith))
            (if_Below (2 * length adapter + 1) demux'.indexed _ _
              (again-Below _ ret rest _ (omega arith))
              (no_index-Below (2 * length adapter + 1) rest _))

  tag_type_turn-Below :
      (adapter : Bytes) (demux : State p e)
      → Below (2 * length adapter) (tag_type_turn p e adapter demux)
  unfolding tag_type_turn
  tag_type_turn-Below adapter demux =
      take_and-Below (2 * length adapter) tag_type_size adapter demux _ λ bs rest h.
        run-Below (2 * length adapter) (parse_tag_type p readers index bs _) _ λ ret demux'.
          if_Below (2 * length adapter)
            (not (is_none demux'.seek_event) && not (is_script demux'.state)) _ _
            (no_index-Below (2 * length adapter) rest _)
            (again-Below _ ret rest _ (omega (arith, stage-le demux'.state)))

  seek_now-Below :
      (m : ℕ) (event : Option SeekEvent) (adapter : Bytes) (demux : State p e)
      → Below m (seek_now p e event adapter demux)
  unfolding Below
  seek_now-Below m none adapter demux = tt
  seek_now-Below m (some event) adapter demux =
      let (done, next) = handle_seek_push p e event (record demux { seek_event = none }) in
      if_Below m done (answers ok adapter (next_tag p e next)) (answers error adapter next) tt tt

  seek_turn-Below :
      (m : ℕ) (adapter : Bytes) (demux : State p e) → Below m (seek_turn p e adapter demux)
  unfolding seek_turn last_tag_turn
  seek_turn-Below m adapter demux =
      if_Below m demux.indexed _ _ (seek_now-Below m demux.seek_event adapter demux) (
        if_Below m (demux.offset == sub64 demux.file_size 4) _ _
          (if_Below m (leb 4 (length adapter)) _ _ (answers-Below m ok _ _)
            (no_index-Below m adapter demux))
          (no_index-Below m adapter demux))

  state_turn-Below :
      (s : DemuxState) (adapter : Bytes) (demux : State p e)
      → Below (2 * length adapter + stage s) (state_turn p e s adapter demux)
  unfolding state_turn header_turn skip_turn
  state_turn-Below header_state adapter demux =
      take_and-Below (2 * length adapter + 1) header_size adapter demux _ λ bs rest h.
        run-Below (2 * length adapter + 1)
          (parse_header p readers index (e.upstream demux.sent) bs demux) _
          λ ret demux'. again-Below _ ret rest _ (omega arith)
  state_turn-Below tag_type_state adapter demux =
      subst (λ m. Below m (tag_type_turn p e adapter demux)) (omega arith)
        (tag_type_turn-Below adapter demux)
  state_turn-Below tag_video_state adapter demux =
      tag_turn-Below (parse_tag_video p e) adapter demux
  state_turn-Below tag_audio_state adapter demux =
      tag_turn-Below (parse_tag_audio p e) adapter demux
  state_turn-Below tag_script_state adapter demux = script_turn-Below adapter demux
  state_turn-Below seek_state adapter demux = seek_turn-Below _ adapter demux
  state_turn-Below skip_state adapter demux =
      take_and-Below (2 * length adapter + 1) demux.tag_size adapter demux _
        λ bs rest h. again-Below _ ok rest _ (omega arith)
  state_turn-Below done_state adapter demux = answers-Below _ ok adapter demux
  state_turn-Below none_state adapter demux = answers-Below _ ok adapter demux

  turn-Below :
      (ret : FlowReturn) (adapter : Bytes) (demux : State p e)
      → Below (measure adapter demux) (turn p e ret adapter demux)
  unfolding turn
  turn-Below ok adapter demux =
      if_Below (measure adapter demux) demux.flushing _ _ (answers-Below _ flushing adapter demux)
        (state_turn-Below demux.state adapter demux)
  turn-Below eos adapter demux = answers-Below _ eos adapter demux
  turn-Below error adapter demux = answers-Below _ error adapter demux
  turn-Below flushing adapter demux = answers-Below _ flushing adapter demux
  turn-Below (other n) adapter demux = answers-Below _ (other n) adapter demux

  more_ends :
      (f : ℕ) (t : Turn (State p e))
      → ((ret : FlowReturn) (adapter : Bytes) (demux : State p e)
          → measure adapter demux < f
          → is_again (parse_loop p e f ret adapter demux) ≡ false)
      → Below f t
      → is_again (more p e (parse_loop p e f) t) ≡ false
  unfolding Below
  more_ends f (again ret adapter demux) h b = h ret adapter demux b
  more_ends f (waits adapter demux) h b = refl
  more_ends f (answers ret adapter demux) h b = refl
  more_ends f undefined h b = refl

  Below-le : (m n : ℕ) (t : Turn (State p e)) → m ≤ n → Below m t → Below n t
  unfolding Below
  Below-le m n (again ret adapter demux) h b = omega arith
  Below-le m n (waits adapter demux) h b = tt
  Below-le m n (answers ret adapter demux) h b = tt
  Below-le m n undefined h b = tt

  pub parse_loop_ends :
      (f : ℕ) (ret : FlowReturn) (adapter : Bytes) (demux : State p e)
      → measure adapter demux < f
      → is_again (parse_loop p e f ret adapter demux) ≡ false
  unfolding parse_loop
  parse_loop_ends zero ret adapter demux h = absurd (omega arith)
  parse_loop_ends (suc f) ret adapter demux h =
      more_ends f (turn p e ret adapter demux) (parse_loop_ends f)
        (Below-le (measure adapter demux) f _ (omega arith) (turn-Below ret adapter demux))

  -- The loop of gst_flv_demux_chain ends within two turns for each byte of the adapter and three
  -- more, whatever the bytes, the state and the answers of the neighbours are: tags of any announced
  -- size, and of the size 0, included.
  pub parse_all_ends :
      (adapter : Bytes) (demux : State p e) → is_again (parse_all p e adapter demux) ≡ false
  unfolding parse_all
  parse_all_ends adapter demux =
      parse_loop_ends (2 * length adapter + 3) ok adapter demux
        (omega (arith, stage-le demux.state))
