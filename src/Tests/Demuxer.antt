-- ===== src/Tests/Demuxer.antt =====
-- The demuxer's theorems at sample inputs.
use ubox_publisher.Common.{ℕ, ◌*◌, ◌≡◌, refl, true, false, some, List, [], ◌∷◌, ◌++◌, arith}
use ubox_publisher.Common.Memory.{Bytes}
use ubox_publisher.Gst.Numbers.{msecond}
use ubox_publisher.Gst.Data.{ok}
use ubox_publisher.Mux.State.{IndexEntry}
use ubox_publisher.Mux.Script.{flv_header}
use ubox_publisher.Mux.Index.Layout.{keyframes}
use ubox_publisher.Mux.Tag.Layout.{flv_tag}
use ubox_publisher.Demux.Header.{parse_header, parse_tag_timestamp, stamped, see_type}
use ubox_publisher.Demux.Header.RoundTrip.{parse_header-flv_header, parse_tag_timestamp-flv_tag}
use ubox_publisher.Demux.Header.Bounds.{IsThere, parse_tag_timestamp-IsThere}
use ubox_publisher.Demux.Send.{State}
use ubox_publisher.Demux.Script.{parsed, parse_item}
use ubox_publisher.Demux.Script.Values.{with_times, with_positions}
use ubox_publisher.Demux.Script.Keyframes.{parse_item-keyframes}
use ubox_publisher.Demux.Metadata.{parse_tag_script}
use ubox_publisher.Demux.Metadata.Total.{parse_tag_script-IsThere}
use ubox_publisher.Tests.Samples.{
  place_platform, sample_readers, sample_index, sample_env, sample_upstream, sample_demux,
}

parse_header-flv_header_example :
    (demux' : State place_platform sample_env) × (parse_header place_platform sample_readers
        sample_index sample_upstream
        (flv_header true false)
        sample_demux
      ≡ some (ok, demux'))
    × (demux'.has_audio ≡ true)
    × (demux'.has_video ≡ false)
parse_header-flv_header_example =
    parse_header-flv_header place_platform sample_readers sample_index sample_upstream true false
      sample_demux refl

abbrev sample_data : Bytes
sample_data = 1 ∷ 0 ∷ 0 ∷ 40 ∷ 101 ∷ 136 ∷ []

parse_tag_timestamp-flv_tag_example :
    parse_tag_timestamp place_platform sample_readers sample_index true
      (flv_tag 9 16777216 (23 ∷ sample_data))
      sample_demux
    ≡ some (
        stamped place_platform sample_readers sample_index true 9 7 true
          (16777216 * msecond)
          (see_type place_platform sample_readers sample_index 9 sample_demux))
parse_tag_timestamp-flv_tag_example =
    parse_tag_timestamp-flv_tag place_platform sample_readers sample_index true 9 16777216 23
      sample_data sample_demux refl (omega arith) (omega arith)

parse_tag_timestamp-IsThere_example : IsThere (
    parse_tag_timestamp place_platform sample_readers sample_index true
      (9 ∷ 0 ∷ 0 ∷ 200 ∷ sample_data)
      sample_demux)
parse_tag_timestamp-IsThere_example =
    parse_tag_timestamp-IsThere place_platform sample_readers sample_index true
      (9 ∷ 0 ∷ 0 ∷ 200 ∷ sample_data) sample_demux

abbrev two_entries : List (IndexEntry ℕ)
two_entries = record { position = 13; time = 0 } ∷ record { position = 400; time = 2 } ∷ []

parse_item-keyframes_example :
    parse_item place_platform sample_env 5
      (keyframes place_platform two_entries ++ (0 ∷ []))
      sample_demux
    ≡ some (
        parsed false (0 ∷ []) (
          with_positions place_platform sample_env
            (13 ∷ 400 ∷ [])
            (with_times place_platform sample_env (0 ∷ 2 ∷ []) sample_demux)))
parse_item-keyframes_example =
    parse_item-keyframes place_platform sample_env 0 two_entries (0 ∷ []) sample_demux
      (omega arith, refl, refl) (omega arith, refl, refl) (omega arith, refl, refl)
      (omega arith, refl, refl) (omega arith)

parse_tag_script-IsThere_example : IsThere (
    parse_tag_script place_platform sample_env
      (0 ∷ 0 ∷ 0 ∷ 0 ∷ 0 ∷ 0 ∷ 0 ∷ 2 ∷ 0 ∷ [])
      sample_demux)
parse_tag_script-IsThere_example =
    parse_tag_script-IsThere place_platform sample_env (0 ∷ 0 ∷ 0 ∷ 0 ∷ 0 ∷ 0 ∷ 0 ∷ 2 ∷ 0 ∷ [])
      sample_demux
