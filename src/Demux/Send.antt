-- ===== src/Demux/Send.antt =====
-- gst_flv_demux_push_src_event, gst_flv_demux_add_codec_tag, gst_flv_demux_push_tags and
-- gst_flv_demux_clear_tags.
use ubox_publisher.Common.{Option, none, some, [], ◌∷◌, if◌then◌else◌}
use ubox_publisher.Common.Memory.{Bytes}
use ubox_publisher.Common.Options.{◌>>=◌}
use ubox_publisher.Gst.Platform.{Platform}
use ubox_publisher.Mux.State.{Kind, audio, video}
use ubox_publisher.Demux.State.{
  Demux, DemuxTag, audio_codec, video_codec, Action, send_tags, send, get_stream,
}
use ubox_publisher.Demux.Env.{Env}

module _ (p : Platform) (e : Env p) where
  open p use {Double}

  abbrev pub State : Type 0
  State = Demux Double e.index.Index

  -- An action on a pad, if there is one.
  abbrev pub send_to : Kind → (Kind → Action) → State → State
  send_to kind action demux =
      if (get_stream kind demux).pad then send (action kind) demux else demux

  unfoldable pub push_src_event : (Kind → Action) → State → State
  unfolding get_stream
  push_src_event action demux = send_to video action (send_to audio action demux)

  abbrev pub add_description : (Bytes → DemuxTag) → Option Bytes → State → State
  add_description tag none demux = demux
  add_description tag (some name) demux = record demux { taglist = tag name ∷ demux.taglist }

  unfoldable pub add_codec_tag : Kind → (Bytes → DemuxTag) → State → State
  unfolding get_stream
  add_codec_tag kind tag demux =
      let name = do
        caps ← e.neighbours.current_caps kind demux.sent
        e.neighbours.codec_description caps
      in if (get_stream kind demux).pad then add_description tag name demux else demux

  unfoldable pub push_tags : State → State
  push_tags demux =
      let named = add_codec_tag video video_codec (add_codec_tag audio audio_codec demux) in
      let global = push_src_event (λ k. send_tags k named.taglist) named in
      send_to video (λ k. send_tags k named.video_tags)
        (send_to audio (λ k. send_tags k named.audio_tags) global)

  unfoldable pub clear_tags : State → State
  clear_tags demux = record demux { taglist = []; audio_tags = []; video_tags = [] }
