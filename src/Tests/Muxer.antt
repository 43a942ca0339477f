-- ===== src/Tests/Muxer.antt =====
-- The muxer's theorems at sample inputs.
use ubox_publisher.Common.{
  Bool, ℕ, ◌+◌, ◌*◌, ◌/◌, ◌^◌, ◌≤◌, ◌<◌, ◌≡◌, refl, true, false, none, some, List, [], ◌∷◌, ◌++◌,
  length, arith, inl, inr,
}
use ubox_publisher.Gst.Numbers.{msecond}
use ubox_publisher.Gst.Data.{MergeMode, Tag, new_buffer}
use ubox_publisher.Mux.State.{Kind, audio, video, MuxPad, Mux, IndexEntry, get_pad}
use ubox_publisher.Mux.Push.{running_time}
use ubox_publisher.Mux.Caps.{
  audio_pad_setcaps, audio_codec, audio_format, audio_rate, audio_channels, mpeg_codec,
}
use ubox_publisher.Mux.Caps.Fields.{AudioFits, audio_pad_setcaps-AudioFits}
use ubox_publisher.Mux.Tag.{tag_times, tag_type, stamp, buffer_to_tag_internal}
use ubox_publisher.Mux.Tag.Layout.{tag_body, flv_tag}
use ubox_publisher.Mux.Tag.Times.{tag_times_forward, tag_times_exact, tag_times_frozen}
use ubox_publisher.Mux.Tag.Whole.{buffer_to_tag_internal-flv_tag}
use ubox_publisher.Mux.Script.{
  max_index_entries, preallocate_size, create_header, create_header-IsCoded, IsCoded, coded_flags,
}
use ubox_publisher.Mux.Index.{index_skip, index_len, index_with_filler}
use ubox_publisher.Mux.Index.Count.{picked}
use ubox_publisher.Mux.Index.Layout.{keyframes}
use ubox_publisher.Mux.Index.Fit.{filler_rest, spaces_left, index_with_filler_fits}
use ubox_publisher.Mux.Metadata.Whole.{IsCounted, create_metadata-script_tag}
use ubox_publisher.Mux.Pads.{sink, create_new_pad, release_pad}
use ubox_publisher.Mux.Pads.Invariant.{
  occurrences, IsWellFormed, create_new_pad-IsWellFormed, release_pad-IsWellFormed,
}
use ubox_publisher.Mux.Run.{find_best_pad}
use ubox_publisher.Mux.Run.Emits.{PadFits, Fits, Grows}
use ubox_publisher.Mux.Aggregate.{aggregate}
use ubox_publisher.Mux.Aggregate.Life.{Life, Life-Grows}
use ubox_publisher.Mux.Aggregate.Round.{aggregate-Grows}
use ubox_publisher.Gst.Data.{FlowReturn}
use ubox_publisher.Mux.Run.Best.{Chosen, find_best_pad-Chosen, find_best_pad-le}
use ubox_publisher.Tests.{
  sample_platform, sample_peers, sample_segment, key_buffer, video_pad, audio_pad, sample_mux,
  aac_caps,
}

tag_times_forward_example :
    (30 ≤ (tag_times 30 0 video_pad).last_dts) × ((tag_times 30 0 video_pad).last_dts < 2 ^ 32)
tag_times_forward_example = tag_times_forward 30 0 video_pad (omega arith)

tag_times_exact_example :
    ((tag_times 30 (10 * msecond) video_pad).dts + 10 ≡ 40_000_000 / msecond)
    × ((tag_times 30 (10 * msecond) video_pad).dts
          + (tag_times 30 (10 * msecond) video_pad).cts
          + 10
        ≡ 80_000_000 / msecond)
tag_times_exact_example =
    tag_times_exact 30 10 video_pad refl (omega arith) (omega arith) (omega arith) (omega arith)
      (omega arith)

-- 2 ^ 32 milliseconds and five more.
abbrev late_pad : MuxPad
late_pad = record video_pad { dts = 4_294_967_301 * msecond; pts = 4_294_967_301 * msecond }

tag_times_frozen_example : (tag_times 4_294_967_290 0 late_pad).last_dts ≡ 4_294_967_290
tag_times_frozen_example =
    tag_times_frozen 4_294_967_290 0 5 late_pad refl (omega arith) (omega arith) (omega arith)

buffer_to_tag_internal-flv_tag_example :
    buffer_to_tag_internal sample_platform video video_pad (some key_buffer) false sample_mux
    ≡ some (
      stamp sample_platform false video video_pad (some key_buffer) (
          new_buffer (
            flv_tag
              (tag_type video)
              (tag_times 30 0 video_pad).dts
              (tag_body video video_pad (some key_buffer) false (tag_times 30 0 video_pad).cts))),
      record sample_mux { last_dts = (tag_times 30 0 video_pad).last_dts },
    )
buffer_to_tag_internal-flv_tag_example =
    buffer_to_tag_internal-flv_tag sample_platform video video_pad (some key_buffer) false
      sample_mux (omega arith)

abbrev two_entries : List (IndexEntry ℕ)
two_entries = record { position = 400; time = 0 } ∷ record { position = 9000; time = 2 } ∷ []

index_with_filler_fits_example :
    (index_with_filler sample_platform two_entries
      ≡ some (
          keyframes sample_platform (picked (index_skip 2) 0 two_entries)
          ++ filler_rest (index_len 2)))
    × (length (picked (index_skip 2) 0 two_entries) ≡ index_len 2)
    × (index_len 2 ≤ max_index_entries)
    × (length (
            keyframes sample_platform (picked (index_skip 2) 0 two_entries)
            ++ filler_rest (index_len 2))
          + spaces_left (index_len 2)
        ≡ preallocate_size)
index_with_filler_fits_example = index_with_filler_fits sample_platform two_entries (omega arith)

create_metadata-script_tag_example : IsCounted sample_platform sample_peers sample_mux
create_metadata-script_tag_example =
    create_metadata-script_tag sample_platform sample_peers sample_mux

create_header-IsCoded_example :
    (audio : Bool) × ((video : Bool) × (IsCoded audio (some audio_pad)
        × (IsCoded video (some video_pad)
            × (create_header sample_platform sample_mux
                ≡ some (
                    70
                    ∷ 76
                    ∷ 86
                    ∷ 1
                    ∷ coded_flags audio video
                    ∷ 0
                    ∷ 0
                    ∷ 0
                    ∷ 9
                    ∷ 0
                    ∷ 0
                    ∷ 0
                    ∷ 0
                    ∷ [])))))
create_header-IsCoded_example = create_header-IsCoded sample_platform sample_mux

aac_caps_accepted : (audio_pad_setcaps audio_pad aac_caps).1 ≡ true
unfolding audio_pad_setcaps audio_codec audio_format audio_rate audio_channels mpeg_codec
aac_caps_accepted = refl

audio_pad_setcaps-AudioFits_example : AudioFits (audio_pad_setcaps audio_pad aac_caps).0
audio_pad_setcaps-AudioFits_example =
    audio_pad_setcaps-AudioFits audio_pad aac_caps aac_caps_accepted

sample_video_pad : get_pad video sample_mux ≡ some video_pad
unfolding get_pad
sample_video_pad = refl

find_best_pad-le_example :
    (find_best_pad sample_platform sample_peers sample_mux).1
    ≤ running_time sample_platform sample_segment 40_000_000
find_best_pad-le_example =
    find_best_pad-le sample_platform sample_peers sample_mux video video_pad key_buffer
      (inr (inl refl)) sample_video_pad refl refl

-- A muxer with a video pad only, still before its header.
abbrev video_mux : Mux ℕ
video_mux = record sample_mux { audio_pad = none; sinkpads = video ∷ [] }

video_mux-IsWellFormed : IsWellFormed video_mux
unfolding occurrences get_pad
video_mux-IsWellFormed = record { audio_once = refl; video_once = refl }

create_new_pad-IsWellFormed_example :
    IsWellFormed (create_new_pad (sink audio) (some audio_pad) video_mux).1
create_new_pad-IsWellFormed_example =
    create_new_pad-IsWellFormed (sink audio) (some audio_pad) video_mux video_mux-IsWellFormed

release_pad-IsWellFormed_example :
    IsWellFormed (release_pad video video_mux)
    × (get_pad video (release_pad video video_mux) ≡ none)
    × (occurrences video (release_pad video video_mux).sinkpads ≡ 0)
    × (get_pad audio (release_pad video video_mux) ≡ get_pad audio video_mux)
    × (occurrences audio (release_pad video video_mux).sinkpads
        ≡ occurrences audio video_mux.sinkpads)
release_pad-IsWellFormed_example = release_pad-IsWellFormed video video_mux video_mux-IsWellFormed

sample_pads_fit : (k : Kind) → PadFits (get_pad k sample_mux)
unfolding PadFits get_pad
sample_pads_fit audio = omega arith
sample_pads_fit video = omega arith

sample_mux-Fits : Fits sample_mux
sample_mux-Fits = record { pads_fit = sample_pads_fit; last_dts_fits = omega arith }

aggregate-Grows_example :
    (ret : FlowReturn) × (s' : Mux ℕ) × (aggregate sample_platform sample_peers sample_mux
      ≡ some (ret, s'))
    × Grows sample_mux s'
aggregate-Grows_example =
    aggregate-Grows sample_platform sample_peers sample_mux sample_mux-Fits (omega arith)

find_best_pad-Chosen_example :
    Chosen sample_platform sample_peers sample_mux
      (find_best_pad sample_platform sample_peers sample_mux)
find_best_pad-Chosen_example = find_best_pad-Chosen sample_platform sample_peers sample_mux

abbrev after_round : Mux ℕ
after_round =
    (aggregate-Grows sample_platform sample_peers sample_mux sample_mux-Fits (omega arith)).1

abbrev keep_tags : MergeMode → List Tag → List Tag → List Tag
keep_tags mode old new = old

-- A round, and then the video pad is released.
Life-Grows_example : Grows sample_mux (release_pad video after_round)
Life-Grows_example =
    Life-Grows sample_platform keep_tags sample_mux (release_pad video after_round) (omega arith) (
      Life.release after_round video (
        Life.round sample_mux after_round sample_peers _ Life.new_born sample_mux-Fits (omega arith)
          (aggregate-Grows sample_platform sample_peers sample_mux sample_mux-Fits
            (omega arith)).2))
