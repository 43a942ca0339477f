-- ===== src/Tests/Turns.antt =====
-- The theorem on the end of gst_flv_demux_loop at the end of a sample file.
use ubox_publisher.Common.{true, some}
use ubox_publisher.Demux.State.{tag_type_state}
use ubox_publisher.Demux.Send.{State}
use ubox_publisher.Tests.Samples.{place_platform, sample_demux, no_stream}
use ubox_publisher.Tests.Streams.{file_env}

abbrev at_end : State place_platform file_env
at_end = record sample_demux {
  state = tag_type_state;
  offset = 16;
  indexed = true;
  video_stream = record no_stream { pad = true };
}

abbrev turned : State place_platform file_env
turned = record at_end { from_offset = some 16; cur_tag_offset = 16 }
