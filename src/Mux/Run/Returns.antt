-- ===== src/Mux/Run/Returns.antt =====
-- The actions of a round, one by one: they never fault, and only send and count.
use ubox_publisher.Common.{
  ℕ, ◌≡◌, refl, ◌∙◌, Bool, true, false, Option, none, some, List, [], ◌∷◌, if◌then◌else◌, arith,
}
use ubox_publisher.Common.Memory.{Bytes}
use ubox_publisher.Gst.Data.{Buffer, ok, is_ok}
use ubox_publisher.Gst.Platform.{Platform}
use ubox_publisher.Mux.State.{
  Kind, audio, video, MuxPad, Mux, pushed, M, get_pad, ◌>>=◌, pure, modify, lift, gets,
}
use ubox_publisher.Mux.Push.{Peers, push}
use ubox_publisher.Mux.Tag.{buffer_to_tag_internal, codec_data_buffer_to_tag}
use ubox_publisher.Mux.Tag.Times.{tag_times_forward}
use ubox_publisher.Mux.Tag.Whole.{buffer_to_tag_internal-flv_tag}
use ubox_publisher.Mux.Metadata.{create_metadata}
use ubox_publisher.Mux.Metadata.Sizes.{script_tag}
use ubox_publisher.Mux.Metadata.Whole.{create_metadata-script_tag, create_metadata-tags_only}
use ubox_publisher.Mux.Run.{
  push_all, tag_of_codec_data, codec_data_tag, codec_data_tags, wants_codec_data, metadata_tag,
}
use ubox_publisher.Mux.Run.Emits.{
  total, BufferFits, PadFits, Fits, Emits, Emitting, bind_lem, Emitting-bind, Emits-same,
  Emits-trans, Emits-Fits, get_pad-same,
}

module _ {D : Type 0} where
  pub Emitting-pure : {A : Type 0} (a : A) → Emitting {D = D} (pure a)
  Emitting-pure a s h = record {
    result = a;
    after = s;
    returns = refl;
    related = Emits-same s s refl refl (omega arith) h.last_dts_fits refl refl refl refl;
  }

  pub push-Emitting : (peers : Peers) (b : Buffer) → Emitting {D = D} (push peers b)
  unfolding push total get_pad
  push-Emitting peers b s h = record {
    result = _;
    after = _;
    returns = refl;
    related = record {
      grows = record {
        new = pushed b ∷ [];
        sent_lem = refl;
        byte_count_lem = omega arith;
        last_dts_le = omega arith;
        last_dts_lt = h.last_dts_fits;
      };
      same_pads = get_pad-same s _ refl refl;
      same_sinkpads = refl;
      same_index = refl;
    };
  }

  -- A change that is not seen in what is sent.
  pub Emitting-modify :
      (f : Mux D → Mux D) → ((s : Mux D) → Fits s → Emits s (f s)) → Emitting (modify f)
  Emitting-modify f e s h = record { result = tt; after = f s; returns = refl; related = e s h }

  pub Emitting-gets : {A : Type 0} (f : Mux D → A) → Emitting (gets f)
  Emitting-gets f s h = record {
    result = f s;
    after = s;
    returns = refl;
    related = Emits-same s s refl refl (omega arith) h.last_dts_fits refl refl refl refl;
  }

  pub Emitting-if :
      {A : Type 0} (b : Bool) (m n : M D A)
      → Emitting m
      → Emitting n
      → Emitting (if b then m else n)
  Emitting-if true m n em en = em
  Emitting-if false m n em en = en

module _ (p : Platform) where
  pub buffer_to_tag_internal-Emitting :
      (kind : Kind) (pad : MuxPad) (buffer : Option Buffer) (is_codec_data : Bool)
      → BufferFits buffer
      → Emitting (buffer_to_tag_internal p kind pad buffer is_codec_data)
  buffer_to_tag_internal-Emitting kind pad buffer c fits s h =
      let (le, lt) = tag_times_forward s.last_dts s.first_timestamp pad h.last_dts_fits in
      record {
        result = _;
        after = _;
        returns = buffer_to_tag_internal-flv_tag p kind pad buffer c s fits;
        related = Emits-same s _ refl refl le lt refl refl refl refl;
      }

  module _ (peers : Peers) where
    pub push_all-Emitting : (bs : List Buffer) → Emitting (push_all p peers bs)
    unfolding push_all
    push_all-Emitting [] = Emitting-pure ok
    push_all-Emitting (b ∷ bs) =
        Emitting-bind (push peers b) _ (push-Emitting peers b)
          (λ ret. Emitting-if (is_ok ret) _ _ (push_all-Emitting bs) (Emitting-pure ret))

    tag_of_codec_data-Emitting :
        (kind : Kind) (pad : MuxPad) (buffer : Option Buffer)
        → BufferFits buffer
        → Emitting (tag_of_codec_data p peers kind pad buffer)
    unfolding tag_of_codec_data codec_data_buffer_to_tag
    tag_of_codec_data-Emitting kind pad none fits = Emitting-pure none
    tag_of_codec_data-Emitting kind pad (some b) fits =
        Emitting-bind (codec_data_buffer_to_tag p kind pad b) _
          (buffer_to_tag_internal-Emitting kind pad (some b) true fits)
          (λ tag. Emitting-pure (some tag))

    codec_data_tag-Emitting :
        (kind : Kind) (pad : Option MuxPad)
        → PadFits pad
        → Emitting (codec_data_tag p peers kind pad)
    unfolding codec_data_tag PadFits
    codec_data_tag-Emitting kind none fits = Emitting-pure none
    codec_data_tag-Emitting kind (some pad) fits =
        Emitting-if (wants_codec_data kind pad.codec) _ _
          (tag_of_codec_data-Emitting kind pad pad.codec_data fits.1) (Emitting-pure none)

    -- The codec data of the pad that the state holds.
    held_codec_data-Emitting :
        {A : Type 0} (kind : Kind) (f : Option Buffer → M p.Double A)
        → ((tag : Option Buffer) → Emitting (f tag))
        → Emitting (λ s. (codec_data_tag p peers kind (get_pad kind s) >>= f) s)
    held_codec_data-Emitting kind f ef s h =
        let r =
          Emitting-bind (codec_data_tag p peers kind (get_pad kind s)) f
            (codec_data_tag-Emitting kind (get_pad kind s) (h.pads_fit kind)) ef s h in
        record { result = r.result; after = r.after; returns = r.returns; related = r.related }

    pub codec_data_tags-Emitting :
        (ks : List Kind) (tags : Option Buffer × Option Buffer)
        → Emitting (codec_data_tags p peers ks tags)
    unfolding codec_data_tags
    codec_data_tags-Emitting [] tags = Emitting-pure tags
    codec_data_tags-Emitting (video ∷ ks) (v, a) =
        held_codec_data-Emitting video _ (λ v'. codec_data_tags-Emitting ks _)
    codec_data_tags-Emitting (audio ∷ ks) (v, a) =
        held_codec_data-Emitting audio _ (λ a'. codec_data_tags-Emitting ks _)

    metadata_tag_lem :
        (full : Bool) (s : Mux p.Double) (tag : Option Bytes) (duration : ℕ)
        → create_metadata p peers full s ≡ some (tag, duration)
        → metadata_tag p peers full s ≡ some (tag, record s { duration = duration })
    metadata_tag_lem full s tag duration e = rw (e, ◌>>=◌, lift) refl

    -- The full metadata is there; what is done with it goes on.
    pub full_metadata-Emitting :
        {A : Type 0} (f : Bytes → M p.Double A)
        → ((bytes : Bytes) → Emitting (f bytes))
        → Emitting (metadata_tag p peers true >>= (λ script. lift script >>= f))
    full_metadata-Emitting f ef s h =
        let (written, rest, duration, e, _, _) = create_metadata-script_tag p peers s in
        let t = record s { duration = duration } in
        let step : Emits s t =
          Emits-same s t refl refl (omega arith) h.last_dts_fits refl refl refl refl in
        let next = ef (script_tag written rest) t (Emits-Fits s t h step) in
        record {
          result = next.result;
          after = next.after;
          returns =
              bind_lem (metadata_tag p peers true) (λ script. lift script >>= f) s t
                (some (script_tag written rest))
                (metadata_tag_lem true s (some (script_tag written rest)) duration e)
              ∙ next.returns;
          related = Emits-trans s t next.after step next.related;
        }

    pub new_tags-Emitting : Emitting (metadata_tag p peers false)
    new_tags-Emitting s h =
        let (tag, duration, e, _) = create_metadata-tags_only p peers s in
        record {
          result = tag;
          after = record s { duration = duration };
          returns = metadata_tag_lem false s tag duration e;
          related = Emits-same s _ refl refl (omega arith) h.last_dts_fits refl refl refl refl;
        }
