-- ===== src/Demux/Pull/Loop/Pushes.antt =====
-- What gst_flv_demux_push_src_event reaches, and what signalling the pads leaves, in
-- gst_flv_demux_loop.
use ubox_publisher.Common.{
  ◌≡◌, refl, sym, ap, ◌∙◌, subst, Bool, true, false, inl, inr, Any, if◌then◌else◌,
}
use ubox_publisher.Gst.Platform.{Platform}
use ubox_publisher.Mux.State.{Kind, audio, video}
use ubox_publisher.Demux.State.{Action, no_more_pads, send, get_stream}
use ubox_publisher.Demux.Env.{Env}
use ubox_publisher.Demux.Send.{State, send_to, push_src_event}
use ubox_publisher.Demux.Pull.Loop.{signal_pads}

module _ (p : Platform) (e : Env p) where
  abbrev pub Did : Action → State p e → Type 0
  Did action demux = Any (λ a. a ≡ action) demux.sent

  still_done :
      (a : Action) (kind : Kind) (action : Kind → Action) (demux : State p e)
      → Did a demux
      → Did a (send_to p e kind action demux)
  still_done a kind action demux d = either (get_stream kind demux).pad
    where
      either : (b : Bool) → Did a (if b then send (action kind) demux else demux)
      either true = inr d
      either false = d

  -- A push keeps what was sent.
  pub push_keeps :
      (a : Action) (action : Kind → Action) (demux : State p e)
      → Did a demux
      → Did a (push_src_event p e action demux)
  unfolding push_src_event
  push_keeps a action demux d =
      still_done a video action (send_to p e audio action demux) (still_done a audio action demux d)

  same_pads :
      (kind k : Kind) (action : Kind → Action) (demux : State p e)
      → get_stream k (send_to p e kind action demux) ≡ get_stream k demux
  unfolding get_stream
  same_pads kind k action demux = either (get_stream kind demux).pad k
    where
      either :
          (b : Bool) (k : Kind)
          → get_stream k (if b then send (action kind) demux else demux) ≡ get_stream k demux
      either true audio = refl
      either true video = refl
      either false k = refl

  sends_to :
      (kind : Kind) (action : Kind → Action) (demux : State p e)
      → (get_stream kind demux).pad ≡ true
      → Did (action kind) (send_to p e kind action demux)
  sends_to kind action demux q =
      subst (λ b. Did (action kind) (if b then send (action kind) demux else demux)) (sym q)
        (inl refl)

  -- What is pushed to the source pads reaches each pad that there is.
  pub push_reaches :
      (k : Kind) (action : Kind → Action) (demux : State p e)
      → (get_stream k demux).pad ≡ true
      → Did (action k) (push_src_event p e action demux)
  unfolding push_src_event
  push_reaches audio action demux q =
      still_done (action audio) video action (send_to p e audio action demux)
        (sends_to audio action demux q)
  push_reaches video action demux q =
      sends_to video action (send_to p e audio action demux)
        (ap (λ s. s.pad) (same_pads audio video action demux) ∙ q)

  pub push_signalled :
      (action : Kind → Action) (demux : State p e)
      → (push_src_event p e action demux).no_more_pads ≡ demux.no_more_pads
  unfolding push_src_event
  push_signalled action demux = one video (send_to p e audio action demux) ∙ one audio demux
    where
      one :
          (kind : Kind) (s : State p e) → (send_to p e kind action s).no_more_pads ≡ s.no_more_pads
      one kind s = either (get_stream kind s).pad
        where
          either :
              (b : Bool) → (if b then send (action kind) s else s).no_more_pads ≡ s.no_more_pads
          either true = refl
          either false = refl

  abbrev after : State p e → Bool → State p e
  after demux b = if b then demux else record (send no_more_pads demux) { no_more_pads = true }

  -- What signal_pads leaves and changes.
  pub signalled :
      (demux : State p e)
      → ((signal_pads p e demux).no_more_pads ≡ true)
        × (((signal_pads p e demux).segment ≡ demux.segment)
            × (((k : Kind) → get_stream k (signal_pads p e demux) ≡ get_stream k demux)
                × ((a : Action) → Did a demux → Did a (signal_pads p e demux))))
  unfolding get_stream
  signalled demux = either demux.no_more_pads refl
    where
      either :
          (b : Bool)
          → demux.no_more_pads ≡ b
          → ((after demux b).no_more_pads ≡ true)
            × (((after demux b).segment ≡ demux.segment)
                × (((k : Kind) → get_stream k (after demux b) ≡ get_stream k demux)
                    × ((a : Action) → Did a demux → Did a (after demux b))))
      either true q = (q, (refl, ((λ k. refl), (λ a d. d))))
      either false q = (
        refl,
        (
          refl,
          (
            (λ k. elim k as (λ k. get_stream k (after demux false) ≡ get_stream k demux) [
              | audio ↦ refl
              | video ↦ refl
            ]),
            (λ a d. inr d),
          ),
        ),
      )
