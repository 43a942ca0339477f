-- ===== src/Demux/Pull/Agrees.antt =====
-- A tag does the same in pull mode and in push mode.
use ubox_publisher.Common.{
  ◌≡◌, refl, sym, ap, ◌∙◌, ◌⊎◌, inl, inr, true, Option, none, some, [], ◌∷◌, leb, le→leb,
  if◌then◌else◌, length, take, drop, arith,
}
use ubox_publisher.Common.Memory.{Bytes}
use ubox_publisher.Common.Options.{◌>>=◌}
use ubox_publisher.Gst.Data.{FlowReturn}
use ubox_publisher.Gst.Platform.{Platform}
use ubox_publisher.Demux.State.{tag_video_state, tag_audio_state}
use ubox_publisher.Demux.Env.{Env}
use ubox_publisher.Demux.Send.{State}
use ubox_publisher.Demux.Audio.{parse_tag_audio}
use ubox_publisher.Demux.Video.{parse_tag_video}
use ubox_publisher.Demux.Chain.{
  Turn, again, waits, take_and, run, advance, next_tag, tag_turn, state_turn,
}
use ubox_publisher.Demux.Pull.{pull_parsed, pull_state}

take_all : (bs : Bytes) → take (length bs) bs ≡ bs
take_all [] = refl
take_all (b ∷ bs) = ap (λ r. b ∷ r) (take_all bs)

module _ (p : Platform) (e : Env p) where
  -- The answer of a turn that goes on, and its state without the size of the tag.
  abbrev pub pulled_result : Turn (State p e) → Option (FlowReturn × State p e)
  pulled_result (again ret rest demux) = some (ret, record demux { tag_size = 0 })
  pulled_result _ = none

  run_agrees :
      (o : Option (FlowReturn × State p e)) (rest : Bytes)
      → (do
        (ret, demux) ← o
        some (ret, record (next_tag p e (advance p e demux.tag_size demux)) { tag_size = 0 }))
        ≡ pulled_result (
            run p e o λ ret demux. again ret rest (next_tag p e (advance p e demux.tag_size demux)))
  run_agrees none rest = refl
  run_agrees (some (ret, demux)) rest = refl

  parsed_agrees :
      (parse : Bytes → State p e → Option (FlowReturn × State p e)) (bs : Bytes) (demux : State p e)
      → length bs ≡ demux.tag_size
      → pull_parsed p e parse bs demux ≡ pulled_result (tag_turn p e parse bs demux)
  unfolding take_and pull_parsed
  parsed_agrees parse bs demux h =
      let enough : leb demux.tag_size (length bs) ≡ true = le→leb _ _ (omega arith) in
      let whole : take demux.tag_size bs ≡ bs = ap (λ n. take n bs) (sym h) ∙ take_all bs in
      run_agrees (parse bs demux) (drop demux.tag_size bs)
      ∙ ap
          (λ cs. pulled_result (
            run p e (parse cs demux) λ ret d.
              again ret (drop demux.tag_size bs) (next_tag p e (advance p e d.tag_size d))))
          (sym whole)
      ∙ ap
          (λ b. pulled_result (
            if b
            then run p e (parse (take demux.tag_size bs) demux) (λ ret d.
              again ret (drop demux.tag_size bs) (next_tag p e (advance p e d.tag_size d)))
            else waits bs demux))
          (sym enough)

  -- A whole video or audio tag that is pulled gives the answer, the state and the output that the
  -- same tag gives in push mode, but that the size of the tag is reset.
  pub pull_state-state_turn :
      (bs : Bytes) (demux : State p e)
      → (demux.state ≡ tag_video_state) ⊎ (demux.state ≡ tag_audio_state)
      → length bs ≡ demux.tag_size
      → pull_state p e demux.state bs demux ≡ pulled_result (state_turn p e demux.state bs demux)
  unfolding pull_state state_turn
  pull_state-state_turn bs demux (inl s) h =
      ap (λ s. pull_state p e s bs demux) s
      ∙ parsed_agrees (parse_tag_video p e) bs demux h
      ∙ ap (λ s. pulled_result (state_turn p e s bs demux)) (sym s)
  pull_state-state_turn bs demux (inr s) h =
      ap (λ s. pull_state p e s bs demux) s
      ∙ parsed_agrees (parse_tag_audio p e) bs demux h
      ∙ ap (λ s. pulled_result (state_turn p e s bs demux)) (sym s)
