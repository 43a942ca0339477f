-- ===== src/Demux/Chain/Chunks.antt =====
-- How the data is cut into buffers makes no difference to the loop of gst_flv_demux_chain.
use ubox_publisher.Common.{
  ℕ, zero, suc, ◌+◌, ◌*◌, ◌≡◌, refl, sym, ap, ◌∙◌, Bool, true, false, Bool-cases, inl, inr, ◌==◌,
  if◌then◌else◌, length, length-append, ◌++◌, append_assoc, arith,
}
use ubox_publisher.Common.Memory.{Bytes}
use ubox_publisher.Gst.Data.{FlowReturn, ok, eos, error, flushing, other}
use ubox_publisher.Gst.Platform.{Platform}
use ubox_publisher.Demux.State.{seek_state}
use ubox_publisher.Demux.Env.{Env}
use ubox_publisher.Demux.Send.{State}
use ubox_publisher.Demux.Chain.{
  Turn, again, waits, answers, undefined, state_turn, turn, more, parse_loop, parse_all,
}
use ubox_publisher.Demux.Chain.{take_in, chain}
use ubox_publisher.Demux.Chain.Total.{is_again, parse_loop_ends, parse_all_ends, stage-le}
use ubox_publisher.Demux.Chain.Extend.{extend, state_turn-extend}
use ubox_publisher.Demux.Chain.Idle.{turn-Idle}

module _ (p : Platform) (e : Env p) where
  turn_ok :
      (adapter : Bytes) (demux : State p e)
      → demux.flushing ≡ false
      → turn p e ok adapter demux ≡ state_turn p e demux.state adapter demux
  unfolding turn
  turn_ok adapter demux f =
      ap
        (λ c.
          if c then answers flushing adapter demux else state_turn p e demux.state adapter demux)
        f

  turn-extend :
      (b : Bytes) (ret : FlowReturn) (adapter : Bytes) (demux : State p e)
      → is_again (turn p e ret adapter demux) ≡ true
      → turn p e ret (adapter ++ b) demux ≡ extend b (turn p e ret adapter demux)
  unfolding turn
  turn-extend b ok adapter demux = elim (Bool-cases demux.flushing) [
    | inl f ↦ λ h.
        let stops : is_again (turn p e ok adapter demux) ≡ false = rw f refl in
        absurd (cc (h, stops))
    | inr f ↦ λ h.
        turn_ok (adapter ++ b) demux f
        ∙ state_turn-extend p e b demux.state adapter demux
            (sym (ap (λ t. is_again t) (turn_ok adapter demux f)) ∙ h)
        ∙ ap (extend b) (sym (turn_ok adapter demux f))
  ]
  turn-extend b eos adapter demux = λ h. cc
  turn-extend b error adapter demux = λ h. cc
  turn-extend b flushing adapter demux = λ h. cc
  turn-extend b (other n) adapter demux = λ h. cc

  abbrev Loop : Type 0
  Loop = FlowReturn → Bytes → State p e → Turn (State p e)

  more_agree :
      (loop loop' : Loop) (t : Turn (State p e))
      → ((ret : FlowReturn) (adapter : Bytes) (demux : State p e)
          → is_again (loop ret adapter demux) ≡ false
          → is_again (loop' ret adapter demux) ≡ false
          → loop ret adapter demux ≡ loop' ret adapter demux)
      → is_again (more p e loop t) ≡ false
      → is_again (more p e loop' t) ≡ false
      → more p e loop t ≡ more p e loop' t
  more_agree loop loop' (again ret adapter demux) h = h ret adapter demux
  more_agree loop loop' (waits adapter demux) h = λ x y. refl
  more_agree loop loop' (answers ret adapter demux) h = λ x y. refl
  more_agree loop loop' undefined h = λ x y. refl

  -- Fuel that is enough gives the same as other fuel that is enough.
  parse_loop_agree :
      (f g : ℕ) (ret : FlowReturn) (adapter : Bytes) (demux : State p e)
      → is_again (parse_loop p e f ret adapter demux) ≡ false
      → is_again (parse_loop p e g ret adapter demux) ≡ false
      → parse_loop p e f ret adapter demux ≡ parse_loop p e g ret adapter demux
  unfolding parse_loop
  parse_loop_agree zero g ret adapter demux hf hg = cc
  parse_loop_agree (suc f) zero ret adapter demux hf hg = cc
  parse_loop_agree (suc f) (suc g) ret adapter demux hf hg =
      more_agree (parse_loop p e f) (parse_loop p e g) (turn p e ret adapter demux)
        (parse_loop_agree f g) hf hg

  -- Where the loop waits for bytes, it goes on from there when they are behind the others from the
  -- start.
  abbrev GoesOn : Turn (State p e) → Bytes → Bytes → State p e → Type 0
  GoesOn t b adapter demux = (g : ℕ) × (t ≡ parse_loop p e g ok (adapter ++ b) demux)

  more-GoesOn :
      (f : ℕ) (b : Bytes) (ret : FlowReturn) (adapter : Bytes) (demux : State p e)
      (t : Turn (State p e)) (adapter' : Bytes) (demux' : State p e)
      → turn p e ret adapter demux ≡ t
      → ((ret : FlowReturn) (adapter : Bytes) (demux : State p e)
          → parse_loop p e f ret adapter demux ≡ waits adapter' demux'
          → GoesOn (parse_loop p e f ret (adapter ++ b) demux) b adapter' demux')
      → more p e (parse_loop p e f) t ≡ waits adapter' demux'
      → GoesOn (parse_loop p e (suc f) ret (adapter ++ b) demux) b adapter' demux'
  unfolding parse_loop extend
  more-GoesOn f b ret adapter demux (again r a d) adapter' demux' q h w =
      let (g, next) = h r a d w in
      let longer : turn p e ret (adapter ++ b) demux ≡ again r (a ++ b) d =
        turn-extend b ret adapter demux (ap (λ t. is_again t) q) ∙ ap (extend b) q in
      (g, ap (more p e (parse_loop p e f)) longer ∙ next)
  more-GoesOn f b ret adapter demux (waits a d) adapter' demux' q h w =
      let (r, same_bytes, same_state) = turn-Idle p e ret adapter demux adapter' demux' (q ∙ w) in
      (suc f, rw (r, same_bytes, same_state) refl)
  more-GoesOn f b ret adapter demux (answers r a d) adapter' demux' q h w = absurd cc
  more-GoesOn f b ret adapter demux undefined adapter' demux' q h w = absurd cc

  parse_loop-GoesOn :
      (f : ℕ) (b : Bytes) (ret : FlowReturn) (adapter : Bytes) (demux : State p e)
      (adapter' : Bytes) (demux' : State p e)
      → parse_loop p e f ret adapter demux ≡ waits adapter' demux'
      → GoesOn (parse_loop p e f ret (adapter ++ b) demux) b adapter' demux'
  unfolding parse_loop
  parse_loop-GoesOn zero b ret adapter demux adapter' demux' w = absurd cc
  parse_loop-GoesOn (suc f) b ret adapter demux adapter' demux' w =
      more-GoesOn f b ret adapter demux (turn p e ret adapter demux) adapter' demux' refl
        (λ r a d. parse_loop-GoesOn f b r a d adapter' demux') w

  -- Where the loop comes to wait for more bytes, the bytes that come next, put behind those that are
  -- left, lead to what they lead to when they stand behind the others from the start.
  parse_all_chunks :
      (adapter b adapter' : Bytes) (demux demux' : State p e)
      → parse_all p e adapter demux ≡ waits adapter' demux'
      → parse_all p e (adapter ++ b) demux ≡ parse_all p e (adapter' ++ b) demux'
  unfolding parse_all
  parse_all_chunks adapter b adapter' demux demux' w =
      let F = 2 * length (adapter ++ b) + 3 in
      let ends : is_again (parse_loop p e F ok adapter demux) ≡ false =
        parse_loop_ends p e F ok adapter demux
          (omega (arith, stage-le demux.state, length-append adapter b)) in
      let waits' : parse_loop p e F ok adapter demux ≡ waits adapter' demux' =
        parse_loop_agree F (2 * length adapter + 3) ok adapter demux ends
          (parse_all_ends p e adapter demux)
        ∙ w in
      let (g, next) = parse_loop-GoesOn F b ok adapter demux adapter' demux' waits' in
      let g_ends : is_again (parse_loop p e g ok (adapter' ++ b) demux') ≡ false =
        ap (λ t. is_again t) (sym next) ∙ parse_all_ends p e (adapter ++ b) demux in
      next
      ∙ parse_loop_agree g (2 * length (adapter' ++ b) + 3) ok (adapter' ++ b) demux' g_ends
          (parse_all_ends p e (adapter' ++ b) demux')

  take_in_stays :
      (offset : ℕ) (adapter : Bytes) (demux : State p e)
      → (offset == 0) ≡ false
      → demux.seeking ≡ false
      → (demux.offset == 0) ≡ false
      → take_in p e offset false adapter demux ≡ (adapter, demux)
  unfolding take_in
  take_in_stays offset adapter demux ho hs hp =
      rw (ho, hp)
        (ap
          (λ c.
            (adapter, if c then record demux { state = seek_state; seeking = false } else demux))
          hs)

  -- Two buffers, the second of which is at an offset other than 0 and without a discontinuity, are
  -- as good as one buffer with the bytes of both, wherever they are cut: if gst_flv_demux_chain comes
  -- to wait for more bytes after the first, with no seek asked for and past the start of the file,
  -- then its answer, its state and what it sent are after the second what they are after both at once.
  pub chain_chunks :
      (offset offset' : ℕ) (discont : Bool) (bytes bytes' adapter adapter' : Bytes)
      (demux demux' : State p e)
      → chain p e offset discont bytes adapter demux ≡ waits adapter' demux'
      → (offset' == 0) ≡ false
      → demux'.seeking ≡ false
      → (demux'.offset == 0) ≡ false
      → chain p e offset discont (bytes ++ bytes') adapter demux
        ≡ chain p e offset' false bytes' adapter' demux'
  unfolding chain
  chain_chunks offset offset' discont bytes bytes' adapter adapter' demux demux' w ho hs hp =
      let (kept, begun) = take_in p e offset discont adapter demux in
      ap (λ bs. parse_all p e bs begun) (sym (append_assoc kept bytes bytes'))
      ∙ parse_all_chunks (kept ++ bytes) bytes' adapter' begun demux' w
      ∙ ap (λ r. parse_all p e (r.0 ++ bytes') r.1)
          (sym (take_in_stays offset' adapter' demux' ho hs hp))
