-- ===== src/Mux/Aggregate/Life.antt =====
-- The muxer's life as a relation: rounds of gst_flv_mux_aggregate with what happens between them.
use ubox_publisher.Common.{
  ◌<◌, ◌^◌, ◌≡◌, refl, sym, ap, ◌∙◌, subst, Bool, true, false, Option, none, some, List, [],
  if◌then◌else◌, length, u64, arith,
}
use mathlib.Core.Bool.{true≢false}
use ubox_publisher.Gst.Data.{Buffer, FlowReturn, MergeMode, Tag}
use ubox_publisher.Gst.Platform.{Platform}
use ubox_publisher.Mux.State.{Kind, audio, video, MuxPad, Mux, get_pad, set_pad}
use ubox_publisher.Mux.Push.{Peers}
use ubox_publisher.Mux.Pads.{
  Template, sink, invalid, SinkEvent, caps_event, tag_event, other_event, create_new_pad,
  release_pad, Parent, parent_event, then_parent, sink_event, pad_event, add_pad,
}
use ubox_publisher.Mux.Run.Emits.{total, Fits, Grows, Grows-trans}
use ubox_publisher.Mux.Aggregate.{aggregate}
use ubox_publisher.Mux.Aggregate.Round.{aggregate-Grows}

module _ (p : Platform) (merge : MergeMode → List Tag → List Tag → List Tag) where
  open p use {Double}

  -- What leads from one state to another. The neighbours may answer each round in another way.
  -- A round is made at a state in which the tags fit and the index is short enough.
  pub data Life (s : Mux Double) : Mux Double → Type 0 where
    new_born : Life s s
    round :
        (t u : Mux Double) (peers : Peers) (ret : FlowReturn)
        → Life s t
        → Fits t
        → length t.index < 2 ^ 31
        → aggregate p peers t ≡ some (ret, u)
        → Life s u
    -- A buffer reaches a pad.
    arrival :
        (t : Mux Double) (kind : Kind) (pad : MuxPad) (buffer : Buffer)
        → Life s t
        → get_pad kind t ≡ some pad
        → Life s (set_pad kind (some (record pad { queued = some buffer })) t)
    -- An event reaches a pad. The parent class may make of each one whatever it likes, but that the
    -- muxer is not flushed.
    event :
        (t u : Mux Double) (kind : Kind) (e : SinkEvent) (parent : Parent Double) (ret : Bool)
        → Life s t
        → ((m : Mux Double) → (parent kind e m).resets ≡ false)
        → sink_event merge parent kind e t ≡ some (ret, u)
        → Life s u
    request :
        (t : Mux Double) (template : Template) (made : Option MuxPad)
        → Life s t
        → Life s (create_new_pad template made t).1
    release : (t : Mux Double) (kind : Kind) → Life s t → Life s (release_pad kind t)

  -- The state behind a run.
  abbrev state_of : {A : Type 0} → Mux Double → Option (A × Mux Double) → Mux Double
  state_of t none = t
  state_of t (some (a, u)) = u

  round-Grows :
      (peers : Peers) (t u : Mux Double) (ret : FlowReturn)
      → Fits t
      → length t.index < 2 ^ 31
      → aggregate p peers t ≡ some (ret, u)
      → Grows t u
  round-Grows peers t u ret h few e =
      let (ret', u', e', g) = aggregate-Grows p peers t h few in
      subst (λ x. Grows t x) (ap (state_of t) (sym e' ∙ e)) g

  -- Nothing is sent.
  abbrev Quiet : Mux Double → Mux Double → Type 0
  Quiet t u = (u.sent ≡ t.sent) × (u.byte_count ≡ t.byte_count) × (u.last_dts ≡ t.last_dts)

  Quiet-Grows : (s t u : Mux Double) → Quiet t u → Grows s t → Grows s u
  Quiet-Grows s t u (e, b, d) g = record {
    new = g.new;
    sent_lem = e ∙ g.sent_lem;
    byte_count_lem = ap u64 b ∙ g.byte_count_lem;
    last_dts_le = omega (arith, g.last_dts_le);
    last_dts_lt = omega (arith, g.last_dts_lt);
  }

  set_pad-Quiet : (k : Kind) (pad : Option MuxPad) (t : Mux Double) → Quiet t (set_pad k pad t)
  unfolding set_pad
  set_pad-Quiet audio pad t = (refl, refl, refl)
  set_pad-Quiet video pad t = (refl, refl, refl)

  release_pad-Quiet : (k : Kind) (t : Mux Double) → Quiet t (release_pad k t)
  unfolding release_pad
  release_pad-Quiet k t = set_pad-Quiet k none t

  create_new_pad-Quiet :
      (template : Template) (made : Option MuxPad) (t : Mux Double)
      → Quiet t (create_new_pad template made t).1
  unfolding create_new_pad add_pad
  create_new_pad-Quiet invalid made t = (refl, refl, refl)
  create_new_pad-Quiet (sink audio) made t = ground arith
  create_new_pad-Quiet (sink video) made t = ground arith

  pad_event-Quiet :
      (k : Kind) (e : SinkEvent) (pad : Option MuxPad) (t : Mux Double)
      → Quiet t (state_of t (pad_event merge k e pad t))
  unfolding pad_event
  pad_event-Quiet k (other_event n) pad t = (refl, refl, refl)
  pad_event-Quiet k (caps_event caps) none t = (refl, refl, refl)
  pad_event-Quiet k (caps_event caps) (some pad) t = set_pad-Quiet k _ t
  pad_event-Quiet k (tag_event list) none t = (refl, refl, refl)
  pad_event-Quiet k (tag_event list) (some pad) t = set_pad-Quiet k _ t

  kept-Quiet :
      (c : Bool) (t u v : Mux Double) → c ≡ false → Quiet t v → Quiet t (if c then u else v)
  kept-Quiet true t u v n q = absurd (true≢false n)
  kept-Quiet false t u v n q = q

  parent_event-Quiet :
      (parent : Parent Double) (k : Kind) (e : SinkEvent) (t : Mux Double)
      → (parent k e t).resets ≡ false
      → Quiet t (parent_event parent k e t).1
  unfolding parent_event set_pad
  parent_event-Quiet parent audio e t n =
      kept-Quiet (parent audio e t).resets t _ _ n (refl, refl, refl)
  parent_event-Quiet parent video e t n =
      kept-Quiet (parent video e t).resets t _ _ n (refl, refl, refl)

  then_parent-Quiet :
      (parent : Parent Double) (k : Kind) (e : SinkEvent) (t : Mux Double)
      (r : Option (Bool × Mux Double))
      → ((m : Mux Double) → (parent k e m).resets ≡ false)
      → Quiet t (state_of t r)
      → Quiet t (state_of t (then_parent parent k e r))
  then_parent-Quiet parent k e t none n q = q
  then_parent-Quiet parent k e t (some (false, u)) n q = q
  then_parent-Quiet parent k e t (some (true, u)) n (s, b, d) =
      let (s', b', d') = parent_event-Quiet parent k e u (n u) in (s' ∙ s, b' ∙ b, d' ∙ d)

  sink_event-Quiet :
      (parent : Parent Double) (k : Kind) (e : SinkEvent) (ret : Bool) (t u : Mux Double)
      → ((m : Mux Double) → (parent k e m).resets ≡ false)
      → sink_event merge parent k e t ≡ some (ret, u)
      → Quiet t u
  unfolding sink_event
  sink_event-Quiet parent k e ret t u n run = subst (Quiet t) (ap (state_of t) run) (
      then_parent-Quiet parent k e t (pad_event merge k e (get_pad k t) t) n
        (pad_event-Quiet k e (get_pad k t) t))

  -- From a state with last_dts below 2 ^ 32, through any sequence of arrivals, of events with whatever
  -- the parent class makes of them but a flush of the muxer, of requests and releases of pads, and of
  -- rounds at states that fit, until a reset: what the muxer sends only grows,
  -- byte_count grows by the bytes of what is sent up to wrap-around, and last_dts does not go back
  -- and stays below 2 ^ 32.
  pub Life-Grows : (s t : Mux Double) → s.last_dts < 2 ^ 32 → Life s t → Grows s t
  unfolding total
  Life-Grows s _ h new_born = record {
    new = [];
    sent_lem = refl;
    byte_count_lem = omega arith;
    last_dts_le = omega arith;
    last_dts_lt = h;
  }
  Life-Grows s _ h (round t u peers ret l f few e) =
      Grows-trans s t u (Life-Grows s t h l) (round-Grows peers t u ret f few e)
  Life-Grows s _ h (arrival t kind pad buffer l g) =
      Quiet-Grows s t _ (set_pad-Quiet kind _ t) (Life-Grows s t h l)
  Life-Grows s _ h (event t u kind e parent ret l n run) =
      Quiet-Grows s t u (sink_event-Quiet parent kind e ret t u n run) (Life-Grows s t h l)
  Life-Grows s _ h (request t template made l) =
      Quiet-Grows s t _ (create_new_pad-Quiet template made t) (Life-Grows s t h l)
  Life-Grows s _ h (release t kind l) =
      Quiet-Grows s t _ (release_pad-Quiet kind t) (Life-Grows s t h l)
