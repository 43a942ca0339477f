-- ===== src/Mux/Run/Emits.antt =====
-- Actions of the muxer that never fault, and only send and count: the pads and the index stay.
use ubox_publisher.Common.{
  ℕ, ◌+◌, ◌^◌, ◌≤◌, ◌<◌, ◌≡◌, refl, sym, ap, ◌∙◌, Bool, true, false, Option, none, some, List, [],
  ◌∷◌, ◌++◌, append_assoc, if◌then◌else◌, u64, length, arith,
}
use ubox_publisher.Gst.Data.{Buffer}
use ubox_publisher.Mux.State.{
  Kind, audio, video, MuxPad, Mux, Output, pushed, moved, M, get_pad, set_pad, ◌>>=◌, lift,
}
use ubox_publisher.Mux.Tag.{bdata}

-- The bytes that are sent.
unfoldable pub total : List Output → ℕ
total [] = 0
total (pushed b ∷ os) = length b.bytes + total os
total (moved n ∷ os) = total os

pub total-append : (xs ys : List Output) → total (xs ++ ys) ≡ total xs + total ys
unfolding total
total-append [] ys = omega arith
total-append (pushed b ∷ os) ys = omega (arith, total-append os ys)
total-append (moved n ∷ os) ys = omega (arith, total-append os ys)

-- A tag around the buffer fits into 32 bits.
abbrev pub BufferFits : Option Buffer → Type 0
BufferFits b = length (bdata b) + 20 < 2 ^ 32

unfoldable pub PadFits : Option MuxPad → Type 0
PadFits none = Unit {0}
PadFits (some pad) = BufferFits pad.queued × BufferFits pad.codec_data

module _ {D : Type 0} where
  pub record Fits (mux : Mux D) : Type 0 where
    pub pads_fit : (k : Kind) → PadFits (get_pad k mux)
    pub last_dts_fits : mux.last_dts < 2 ^ 32

  -- What is sent comes on top, is counted, and no timestamp goes back.
  pub record Grows (s s' : Mux D) : Type 0 where
    pub new : List Output
    pub sent_lem : s'.sent ≡ new ++ s.sent
    pub byte_count_lem : u64 s'.byte_count ≡ u64 (s.byte_count + total new)
    pub last_dts_le : s.last_dts ≤ s'.last_dts
    pub last_dts_lt : s'.last_dts < 2 ^ 32

  pub record Emits (s s' : Mux D) : Type 0 where
    pub grows : Grows s s'
    pub same_pads : (k : Kind) → get_pad k s' ≡ get_pad k s
    pub same_sinkpads : s'.sinkpads ≡ s.sinkpads
    pub same_index : s'.index ≡ s.index

  pub Grows-trans : (s t u : Mux D) → Grows s t → Grows t u → Grows s u
  Grows-trans s t u f g = record {
    new = g.new ++ f.new;
    sent_lem = g.sent_lem ∙ ap (λ x. g.new ++ x) f.sent_lem ∙ sym (append_assoc g.new f.new s.sent);
    byte_count_lem = omega (arith, f.byte_count_lem, g.byte_count_lem, total-append g.new f.new);
    last_dts_le = omega (arith, f.last_dts_le, g.last_dts_le);
    last_dts_lt = g.last_dts_lt;
  }

  pub Emits-trans : (s t u : Mux D) → Emits s t → Emits t u → Emits s u
  Emits-trans s t u f g = record {
    grows = Grows-trans s t u f.grows g.grows;
    same_pads = λ k. g.same_pads k ∙ f.same_pads k;
    same_sinkpads = g.same_sinkpads ∙ f.same_sinkpads;
    same_index = g.same_index ∙ f.same_index;
  }

  pub Emits-Fits : (s t : Mux D) → Fits s → Emits s t → Fits t
  Emits-Fits s t f e = record {
    pads_fit = λ k. rw (e.same_pads k) (f.pads_fit k);
    last_dts_fits = e.grows.last_dts_lt;
  }

  module _ {A : Type 0} where
    -- An action that returns, and from whose state one can go on.
    pub record Returns (R : Mux D → Mux D → Type 0) (m : M D A) (s : Mux D) : Type 0 where
      pub result : A
      pub after : Mux D
      pub returns : m s ≡ some (result, after)
      pub related : R s after

    abbrev pub Emitting : M D A → Type 0
    Emitting m = (s : Mux D) → Fits s → Returns Emits m s

    abbrev pub Growing : M D A → Type 0
    Growing m = (s : Mux D) → Fits s → Returns Grows m s

  module _ {A B : Type 0} (m : M D A) (f : A → M D B) where
    pub bind_lem : (s s' : Mux D) (a : A) → m s ≡ some (a, s') → (m >>= f) s ≡ f a s'
    bind_lem s s' a e = rw (e, ◌>>=◌) refl

    pub Emitting-bind : Emitting m → ((a : A) → Emitting (f a)) → Emitting (m >>= f)
    Emitting-bind em ef s h =
        let first = em s h in
        let second = ef first.result first.after (Emits-Fits s first.after h first.related) in
        record {
          result = second.result;
          after = second.after;
          returns = bind_lem s first.after first.result first.returns ∙ second.returns;
          related = Emits-trans s first.after second.after first.related second.related;
        }

    pub Growing-bind : Emitting m → ((a : A) → Growing (f a)) → Growing (m >>= f)
    Growing-bind em ef s h =
        let first = em s h in
        let second = ef first.result first.after (Emits-Fits s first.after h first.related) in
        record {
          result = second.result;
          after = second.after;
          returns = bind_lem s first.after first.result first.returns ∙ second.returns;
          related = Grows-trans s first.after second.after first.related.grows second.related;
        }

  pub Growing-of : {A : Type 0} (m : M D A) → Emitting m → Growing m
  Growing-of m em s h =
      let e = em s h in
      record { result = e.result; after = e.after; returns = e.returns; related = e.related.grows }

  pub get_pad-same :
      (s t : Mux D)
      → t.audio_pad ≡ s.audio_pad
      → t.video_pad ≡ s.video_pad
      → (k : Kind) → get_pad k t ≡ get_pad k s
  unfolding get_pad
  get_pad-same s t a v audio = a
  get_pad-same s t a v video = v

  -- A state that differs in none of these.
  pub Emits-same :
      (s t : Mux D)
      → t.sent ≡ s.sent
      → t.byte_count ≡ s.byte_count
      → s.last_dts ≤ t.last_dts
      → t.last_dts < 2 ^ 32
      → t.audio_pad ≡ s.audio_pad
      → t.video_pad ≡ s.video_pad
      → t.sinkpads ≡ s.sinkpads
      → t.index ≡ s.index
      → Emits s t
  unfolding total
  Emits-same s t e b le lt a v k i = record {
    grows = record {
      new = [];
      sent_lem = e;
      byte_count_lem = omega arith;
      last_dts_le = le;
      last_dts_lt = lt;
    };
    same_pads = get_pad-same s t a v;
    same_sinkpads = k;
    same_index = i;
  }

  pub set_pad-Grows :
      (k : Kind) (pad : Option MuxPad) (s : Mux D) → Fits s → Grows s (set_pad k pad s)
  unfolding set_pad total
  set_pad-Grows audio pad s h = record {
    new = [];
    sent_lem = refl;
    byte_count_lem = omega arith;
    last_dts_le = omega arith;
    last_dts_lt = h.last_dts_fits;
  }
  set_pad-Grows video pad s h = record {
    new = [];
    sent_lem = refl;
    byte_count_lem = omega arith;
    last_dts_le = omega arith;
    last_dts_lt = h.last_dts_fits;
  }

  set_pad_fits :
      (k j : Kind) (pad : Option MuxPad) (s : Mux D)
      → PadFits pad
      → PadFits (get_pad j s)
      → PadFits (get_pad j (set_pad k pad s))
  unfolding get_pad set_pad
  set_pad_fits audio audio pad s f g = f
  set_pad_fits audio video pad s f g = g
  set_pad_fits video audio pad s f g = g
  set_pad_fits video video pad s f g = f

  pub set_pad-Fits :
      (k : Kind) (pad : Option MuxPad) (s : Mux D) → PadFits pad → Fits s → Fits (set_pad k pad s)
  set_pad-Fits k pad s f h = record {
    pads_fit = λ j. set_pad_fits k j pad s f (h.pads_fit j);
    last_dts_fits = (set_pad-Grows k pad s h).last_dts_lt;
  }

  pub set_pad-index :
      (k : Kind) (pad : Option MuxPad) (s : Mux D) → (set_pad k pad s).index ≡ s.index
  unfolding set_pad
  set_pad-index audio pad s = refl
  set_pad-index video pad s = refl

  module _ {A : Type 0} (R : Mux D → Mux D → Type 0) where
    -- A test of the state.
    pub Returns-if :
        (b : Bool) (m n : M D A) (s : Mux D)
        → Returns R m s
        → Returns R n s
        → Returns R (λ x. if b then m x else n x) s
    Returns-if true m n s rm rn = record {
      result = rm.result;
      after = rm.after;
      returns = rm.returns;
      related = rm.related;
    }
    Returns-if false m n s rm rn = record {
      result = rn.result;
      after = rn.after;
      returns = rn.returns;
      related = rn.related;
    }

    -- The same run of another action.
    pub Returns-same : (m n : M D A) (s : Mux D) → m s ≡ n s → Returns R n s → Returns R m s
    Returns-same m n s e r = record {
      result = r.result;
      after = r.after;
      returns = e ∙ r.returns;
      related = r.related;
    }

  module _ {A B : Type 0} (f : A → M D B) where
    pub lift_bind : (o : Option A) (a : A) (s : Mux D) → o ≡ some a → (lift o >>= f) s ≡ f a s
    lift_bind o a s e = rw (e, ◌>>=◌, lift) refl
