-- ===== src/Mux/Run/Header.antt =====
-- gst_flv_mux_write_header never faults.
use ubox_publisher.Common.{refl, none, some, List, arith}
use ubox_publisher.Gst.Data.{Buffer}
use ubox_publisher.Gst.Platform.{Platform}
use ubox_publisher.Mux.State.{Mux, ◌>>◌, lift, modify}
use ubox_publisher.Mux.Push.{Peers}
use ubox_publisher.Mux.Script.{have_pad, create_header, flv_header, create_header-flv_header}
use ubox_publisher.Mux.Run.{header_buffers, push_all, write_header}
use ubox_publisher.Mux.Run.Emits.{Emitting, Emitting-bind, Emits-same}
use ubox_publisher.Mux.Run.Returns.{
  Emitting-modify, Emitting-gets, push_all-Emitting, codec_data_tags-Emitting,
  full_metadata-Emitting,
}

module _ (p : Platform) (peers : Peers) where
  open p use {Double}

  header-Emitting : Emitting (λ (mux : Mux Double). lift (create_header p mux) mux)
  header-Emitting s h = record {
    result = flv_header (have_pad s.audio_pad) (have_pad s.video_pad);
    after = s;
    returns = rw (create_header-flv_header p s, lift) refl;
    related = Emits-same s s refl refl (omega arith) h.last_dts_fits refl refl refl refl;
  }

  buffers-Emitting :
      (buffers : List Buffer)
      → Emitting (
          modify (λ (m : Mux Double). record m { streamheader = some buffers })
          >> push_all p peers buffers)
  buffers-Emitting buffers =
      Emitting-bind _ _
        (Emitting-modify _
          (λ s h. Emits-same s _ refl refl (omega arith) h.last_dts_fits refl refl refl refl))
        (λ _. push_all-Emitting p peers buffers)

  pub write_header-Emitting : Emitting (write_header p peers)
  unfolding write_header
  write_header-Emitting =
      Emitting-bind _ _
        (Emitting-modify _
          (λ s h. Emits-same s _ refl refl (omega arith) h.last_dts_fits refl refl refl refl))
        (λ _. Emitting-bind _ _ header-Emitting (λ header.
          full_metadata-Emitting p peers _ (λ metadata.
            Emitting-bind _ _ (Emitting-gets (λ m. m.sinkpads)) (λ sinkpads.
              Emitting-bind _ _ (codec_data_tags-Emitting p peers sinkpads (none, none))
                (λ tags. buffers-Emitting (header_buffers header metadata tags.0 tags.1))))))
