-- ===== src/Tests/Streams.antt =====
-- The theorems on the demuxer's streams and on its loop at sample inputs.
use ubox_publisher.Common.{
  ◌+◌, ◌*◌, ◌-◌, ◌^◌, ◌≡◌, ◌⊎◌, refl, true, false, not, some, [], ◌∷◌, ◌++◌, ltb, leb,
  if◌then◌else◌, drop, u32, u64, arith,
}
use ubox_publisher.Common.{ℕ, ◌≤◌, List, take, Bool-cases, inr, leb→le, All-take, All-drop}
use ubox_publisher.Gst.Data.{ok, eos, is_ok, FlowReturn}
use ubox_publisher.Demux.State.{Action}
use ubox_publisher.Demux.Env.{Env}
use ubox_publisher.Demux.Pull.Scan.{create_index}
use ubox_publisher.Demux.Pull.Scan.Steps.{AreBytes}
use ubox_publisher.Demux.Pull.Scan.Ends.{is_scanning, if_AreBytes, create_index_ends}
use ubox_publisher.Common.Memory.{Bytes, load}
use ubox_publisher.Gst.Numbers.{pos}
use ubox_publisher.Mux.State.{video, MuxPad}
use ubox_publisher.Mux.Script.{flv_header}
use ubox_publisher.Mux.Tag.{audio_flags}
use ubox_publisher.Mux.Tag.Layout.{tag_body, flv_tag}
use ubox_publisher.Mux.Caps.{audio_rate}
use ubox_publisher.Demux.State.{Stream, OutBuffer, tag_type_state}
use ubox_publisher.Demux.Header.{parse_header, read_flags}
use ubox_publisher.Demux.Header.Bounds.{IsThere}
use ubox_publisher.Demux.Send.{State}
use ubox_publisher.Demux.Push.{update_resync}
use ubox_publisher.Demux.Push.Resync.{out_time, update_resync_continues}
use ubox_publisher.Demux.Audio.{audio_format, parse_tag_audio}
use ubox_publisher.Demux.Audio.Flags.{
  is_8khz, is_16khz, coded_rate, audio_format-audio_flags, audio_format_rate,
}
use ubox_publisher.Demux.Video.{composition_time, send_video, parse_tag_video}
use ubox_publisher.Demux.Video.Times.{composition_time_clamped}
use ubox_publisher.Demux.Video.RoundTrip.{IsReady}
use ubox_publisher.Demux.Video.Bounds.{parse_tag_audio-IsThere, parse_tag_video-IsThere}
use ubox_publisher.Demux.Video.Sends.{Sent, send_video-Sent, parse_tag_video-Sent}
use ubox_publisher.Demux.Chain.{
  waits, parse_all, chain, parse_loop, take_in, turn, state_turn, header_turn, take_and,
  tag_type_turn,
}
use ubox_publisher.Demux.Chain.Total.{is_again, parse_all_ends}
use ubox_publisher.Demux.Chain.Chunks.{chain_chunks}
use ubox_publisher.Tests.{key_buffer, video_pad, audio_pad}
use ubox_publisher.Tests.Samples.{place_platform, sample_env, sample_demux, no_stream}
use ubox_publisher.Mux.Caps.Fields.{AudioFits}
use ubox_publisher.Common.{inl}
use ubox_publisher.Demux.State.{tag_video_state}
use ubox_publisher.Demux.Pull.{pull_state}
use ubox_publisher.Demux.Pull.Agrees.{pulled_result, pull_state-state_turn}
use ubox_publisher.Demux.Video.RoundTrip.{IsReady}

abbrev running_stream : Stream
running_stream = record no_stream {
  pad = true;
  codec_tag = 7;
  need_discont = false;
  codec_data = some (1 ∷ []);
  last = 5000;
  time_offset = 700;
}

update_resync_continues_example :
    (((update_resync 1000 running_stream).0 ≡ true)
      × (running_stream.need_discont ≡ false)
      × (out_time 1000 (update_resync 1000 running_stream).1
          ≡ out_time (if leb 1000 5000 then 5000 else 5000 + 2 ^ 32) running_stream))
    ⊎ (((update_resync 1000 running_stream).0 ≡ false)
        × (out_time 1000 (update_resync 1000 running_stream).1 ≡ out_time 1000 running_stream))
update_resync_continues_example =
    update_resync_continues 1000 running_stream (omega arith) (omega arith)

composition_time_clamped_example :
    u32 (3 + composition_time (2 ^ 24 - 5) 3)
    ≡ (if ltb (2 ^ 24 - 5) (2 ^ 23) then u32 (3 + (2 ^ 24 - 5)) else 3 - (2 ^ 24 - (2 ^ 24 - 5)))
composition_time_clamped_example =
    composition_time_clamped (2 ^ 24 - 5) 3 (omega arith) (omega arith)

abbrev mp3_pad : MuxPad
mp3_pad = record audio_pad { codec = 2; rate = 2 }

mp3_fits : AudioFits mp3_pad
mp3_fits = record {
  codec_fits = omega arith;
  rate_fits = omega arith;
  width_fits = omega arith;
  channels_fits = omega arith;
}

audio_format-audio_flags_example :
    ((audio_format (audio_flags mp3_pad)).codec_tag ≡ 2)
    × ((audio_format (audio_flags mp3_pad)).channels ≡ 1 + 1)
    × ((audio_format (audio_flags mp3_pad)).width ≡ 8 + 8 * 1)
    × ((audio_format (audio_flags mp3_pad)).rate
        ≡ (if is_8khz 2 then 8000 else if is_16khz 2 then 16000 else coded_rate 2))
audio_format-audio_flags_example = audio_format-audio_flags mp3_pad mp3_fits

mp3_rate : audio_rate 2 (some (pos 22050)) ≡ some 2
unfolding audio_rate
mp3_rate = refl

audio_format_rate_example : (audio_format (audio_flags mp3_pad)).rate ≡ 22050
audio_format_rate_example =
    audio_format_rate mp3_pad 22050 mp3_fits (ground arith) refl refl mp3_rate

abbrev ready_demux : State place_platform sample_env
ready_demux = record sample_demux {
  video_stream = running_stream;
  tag_data_size = 11;
  tag_size = 22;
}

ready : IsReady place_platform sample_env 7 ready_demux
ready = record { has_pad = refl; same_codec = refl; has_data = refl; no_par = refl }

parse_tag_video-Sent_example :
    (out : OutBuffer) × ((ret : FlowReturn) × ((s : State place_platform sample_env)
        × ((parse_tag_video place_platform sample_env
                (drop 4 (flv_tag 9 40 (tag_body video video_pad (some key_buffer) false 20)))
                ready_demux
              ≡ some (ret, s))
            × (Sent place_platform sample_env out ready_demux s
                × ((out.bytes ≡ key_buffer.bytes)
                    × ((out.dts
                          ≡ u64 (40 * 1000000 + (update_resync 40 running_stream).1.time_offset))
                        × ((out.pts
                              ≡ u64 (
                                  u32 (40 + 20) * 1000000
                                  + (update_resync 40 running_stream).1.time_offset))
                            × (out.delta_unit ≡ key_buffer.delta_unit))))))))
parse_tag_video-Sent_example =
    parse_tag_video-Sent place_platform sample_env 40 20 video_pad key_buffer ready_demux
      (omega arith) (omega arith) (omega arith) (omega arith) refl ready refl refl

send_video-Sent_example :
    (buffer : OutBuffer) × (Sent place_platform sample_env buffer ready_demux
      (send_video place_platform sample_env 40 20 true (1 ∷ 2 ∷ []) ready_demux).1)
    × (buffer.bytes ≡ 1 ∷ 2 ∷ [])
    × (buffer.dts ≡ u64 (40 * 1000000 + (update_resync 40 running_stream).1.time_offset))
    × (buffer.pts ≡ u64 (u32 (40 + 20) * 1000000 + (update_resync 40 running_stream).1.time_offset))
    × (buffer.resync ≡ (update_resync 40 running_stream).0)
    × (buffer.delta_unit ≡ not true)
    × (buffer.discont ≡ running_stream.need_discont)
send_video-Sent_example =
    send_video-Sent place_platform sample_env 40 20 true (1 ∷ 2 ∷ []) ready_demux

parse_tag_audio-IsThere_example :
    IsThere (parse_tag_audio place_platform sample_env (0 ∷ 0 ∷ 40 ∷ []) sample_demux)
parse_tag_audio-IsThere_example =
    parse_tag_audio-IsThere place_platform sample_env (0 ∷ 0 ∷ 40 ∷ []) sample_demux

parse_tag_video-IsThere_example : IsThere (
    parse_tag_video place_platform sample_env
      (0 ∷ 0 ∷ 40 ∷ 0 ∷ 0 ∷ 0 ∷ 0 ∷ 23 ∷ 1 ∷ 0 ∷ 0 ∷ 40 ∷ [])
      (record ready_demux { tag_size = 12 }))
parse_tag_video-IsThere_example =
    parse_tag_video-IsThere place_platform sample_env
      (0 ∷ 0 ∷ 40 ∷ 0 ∷ 0 ∷ 0 ∷ 0 ∷ 23 ∷ 1 ∷ 0 ∷ 0 ∷ 40 ∷ []) (record ready_demux { tag_size = 12 })

parse_all_ends_example :
    is_again
      (parse_all place_platform sample_env (flv_header true true ++ (9 ∷ 0 ∷ [])) sample_demux)
    ≡ false
parse_all_ends_example =
    parse_all_ends place_platform sample_env (flv_header true true ++ (9 ∷ 0 ∷ [])) sample_demux

-- A video frame of two bytes, in the state of its tag.
abbrev video_bytes : Bytes
video_bytes = 0 ∷ 0 ∷ 40 ∷ 0 ∷ 0 ∷ 0 ∷ 0 ∷ 39 ∷ 1 ∷ 0 ∷ 0 ∷ 0 ∷ 5 ∷ 6 ∷ 0 ∷ 0 ∷ 0 ∷ 18 ∷ []

abbrev pulling_demux : State place_platform sample_env
pulling_demux = record ready_demux { state = tag_video_state; tag_data_size = 7; tag_size = 18 }

pull_state-state_turn_example :
    pull_state place_platform sample_env tag_video_state video_bytes pulling_demux
    ≡ pulled_result place_platform sample_env
        (state_turn place_platform sample_env tag_video_state video_bytes pulling_demux)
pull_state-state_turn_example =
    pull_state-state_turn place_platform sample_env video_bytes pulling_demux (inl refl) refl

abbrev first_buffer : Bytes
first_buffer = 70 ∷ 76 ∷ 86 ∷ 1 ∷ 5 ∷ 0 ∷ 0 ∷ 0 ∷ 9 ∷ 0 ∷ 0 ∷ 0 ∷ 0 ∷ 9 ∷ 0 ∷ []

-- The state after the file header.
abbrev begun_demux : State place_platform sample_env
begun_demux = record sample_demux {
  state = tag_type_state;
  offset = 13;
  has_audio = true;
  has_video = true;
  need_header = false;
}

first_waits :
    chain place_platform sample_env 0 false first_buffer [] sample_demux
    ≡ waits (9 ∷ 0 ∷ []) begun_demux
unfolding chain parse_all parse_loop take_in turn state_turn header_turn take_and parse_header load
    read_flags tag_type_turn
first_waits = refl

chain_chunks_example :
    chain place_platform sample_env 0 false (first_buffer ++ (0 ∷ 7 ∷ 0 ∷ [])) [] sample_demux
    ≡ chain place_platform sample_env 15 false (0 ∷ 7 ∷ 0 ∷ []) (9 ∷ 0 ∷ []) begun_demux
chain_chunks_example =
    chain_chunks place_platform sample_env 0 15 false first_buffer (0 ∷ 7 ∷ 0 ∷ []) [] (9 ∷ 0 ∷ [])
      sample_demux begun_demux first_waits refl refl refl

-- A file of one audio tag, and the state in front of it.
abbrev file : Bytes
file = 8 ∷ 0 ∷ 0 ∷ 1 ∷ 0 ∷ 0 ∷ 0 ∷ 0 ∷ 0 ∷ 0 ∷ 0 ∷ 47 ∷ 0 ∷ 0 ∷ 0 ∷ 12 ∷ []

abbrev pub file_env : Env place_platform
file_env = record sample_env {
  neighbours = record sample_env.neighbours {
    pulled = λ offset size sent.
        (if leb (offset + size) 16 then (ok, take size (drop offset file)) else (eos, []));
  };
}

file_bytes : AreBytes file
file_bytes = (
  omega arith,
  (
    omega arith,
    (
      omega arith,
      (
        omega arith,
        (
          omega arith,
          (
            omega arith,
            (
              omega arith,
              (
                omega arith,
                (
                  omega arith,
                  (
                    omega arith,
                    (
                      omega arith,
                      (omega arith, (omega arith, (omega arith, (omega arith, (omega arith, tt))))),
                    ),
                  ),
                ),
              ),
            ),
          ),
        ),
      ),
    ),
  ),
)

file_end :
    (off : ℕ) (sent : List Action)
    → 16 ≤ off
    → is_ok (file_env.neighbours.pulled off 12 sent).0 ≡ false
file_end off sent h = elim (Bool-cases (leb (off + 12) 16)) [
  | inl l ↦ absurd (omega (arith, leb→le _ _ l))
  | inr l ↦ rw l refl
]

file_pulled : (off : ℕ) (sent : List Action) → AreBytes (file_env.neighbours.pulled off 12 sent).1
file_pulled off sent =
    if_AreBytes (leb (off + 12) 16) _ _
      (All-take _ 12 (drop off file) (All-drop _ off file file_bytes)) tt

create_index_ends_example :
    is_scanning (create_index place_platform file_env (16 + 1) 0 1000 sample_demux) ≡ false
create_index_ends_example =
    create_index_ends place_platform file_env 16 (omega arith) file_end file_pulled 0 1000
      sample_demux
