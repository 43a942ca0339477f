-- ===== src/Lib.antt =====
-- The GStreamer elements of ubox-publisher, a program that publishes a camera's stream as FLV.
--
-- The program (src/main.cpp and its neighbours) builds a pipeline from a camera source (uv4l2src),
-- a clock overlay (uclockoverlay), encoders, and the FLV muxer of uflv/gstflvmux.c, and serves
-- requests on a socket. This development is about the muxer and the demuxer of uflv, which hold the
-- program's own file format logic: from caps and buffers of an audio and a video pad the muxer makes
-- the bytes of an FLV file or stream, and the demuxer of uflv/gstflvdemux.c makes buffers of them,
-- with the index of uflv/gstindex.c and uflv/gstmemindex.c for its seeks.
--
-- Common: the shared names, Boolean tests and w-bit words (Common/Tests), lists over the native
-- numbers (Common/Lists), fields of a byte and of longer words (Common/Bits, Common/Or, Common/Xor),
-- and memory (Common/Memory): a block is a
-- list of bytes, a store is an offset with bytes and gives `none` if it leaves the block, and `fill`
-- is a sequence of stores.
--
-- Gst: what the elements use of GStreamer. Gst/Numbers has clock times as bit patterns below 2 ^ 64,
-- so that GST_CLOCK_TIME_NONE is 2 ^ 64 - 1 and GST_CLOCK_STIME_NONE is 2 ^ 63. Gst/Data has
-- buffers, segments, caps and tags. Gst/Platform is a record of the library's functions, with what
-- its documentation says of them: doubles and their bytes, g_malloc, whose block holds anything,
-- and running times. Gst/Readers has the GST_READ macros and GstByteReader: a reader is the bytes that
-- it has left. Every definition that calls one takes the record as a parameter.
--
-- Mux, for uflv/gstflvmux.c and uflv/gstflvmux.h:
--   State      the structs GstUFlvMux and GstUFlvMuxPad, their resets, and actions on the state, in
--              which a fault (a store outside of a block, a failed g_assert) is `none`. A pad is
--              named by its kind, audio or video, since the muxer has at most one of each. `sent`
--              collects what the source pad emits.
--   Caps       gst_flv_mux_video_pad_setcaps, gst_flv_mux_audio_pad_setcaps
--   Tag        gst_flv_mux_buffer_to_tag_internal and its callers: the times (tag_times), the block
--              (tag_block, a list of stores), and the times and flags of the buffer (stamp)
--   Script     gst_flv_mux_create_header, gst_flv_mux_preallocate_index,
--              gst_flv_mux_create_number_script_value, and the string values of the metadata
--   Push       gst_flv_mux_push, gst_flv_mux_segment_to_running_time, and Peers: what the
--              neighbours of the muxer's pads answer
--   Index      gst_flv_mux_update_index, gst_flv_mux_determine_duration,
--              gst_flv_mux_rewrite_header
--   Metadata   gst_flv_mux_create_metadata, as a chain of steps on the tag so far
--   Pads       gst_flv_mux_create_new_pad, gst_flv_mux_release_pad, gst_flv_mux_sink_event,
--              gst_flv_mux_store_codec_tags, gst_flv_mux_set_property; what the parent class makes of
--              an event, which ends in its hands, is a parameter (Parent)
--   Run        gst_flv_mux_write_header, gst_flv_mux_write_buffer, gst_flv_mux_write_eos,
--              gst_flv_mux_find_best_pad
--   Aggregate  gst_flv_mux_aggregate, gst_flv_mux_get_next_time
-- A child of one of these is named for what it proves. Mux/Run/Emits has the relations between the
-- states before and behind an action, and how they go through a sequence of actions. Loops over lists of
-- the muxer are structural recursion, so there is no fuel.
--
-- Demux, for uflv/gstflvdemux.c and uflv/gstflvdemux.h:
--   State      the struct GstUFlvDemux, with a Stream for the fields that audio and video both have;
--              the index as an interface (IndexOps); what the demuxer sends, to its pads, upstream and
--              to the bin (Action, `sent` with the latest first), and what is answered to it
--              (Neighbours, functions of all that was sent)
--   Header     gst_flv_demux_parse_header, gst_flv_demux_parse_tag_type,
--              gst_flv_demux_parse_tag_timestamp, gst_flv_demux_check_seekability
--   Env        the parameters in one record, and parse_flv_demux_parse_date_string
--   Send       gst_flv_demux_push_tags and what it calls, gst_flv_demux_clear_tags
--   Script     FLV_GET_STRING, gst_flv_demux_parse_metadata_item
--   Metadata   gst_flv_demux_parse_tag_script
--   Negotiate  gst_flv_demux_audio_negotiate, gst_flv_demux_video_negotiate
--   Push       what the parsers of audio and video tags share, gst_flv_demux_update_resync
--   Audio      gst_flv_demux_parse_tag_audio
--   Video      gst_flv_demux_parse_tag_video
--   Seek       gst_flv_demux_flush, gst_flv_demux_cleanup, and seeks while data is pushed
--   Chain      gst_flv_demux_chain, turn by turn; the adapter is the bytes that it holds
--   Pull       gst_flv_demux_pull_range, gst_flv_demux_pull_tag, gst_flv_demux_pull_header
--   Pull/Scan  gst_flv_demux_create_index, gst_flv_demux_get_metadata
--   Pull/Sections  gst_flv_demux_handle_seek_pull, gst_flv_demux_seek_to_prev_keyframe
--   Pull/Loop  gst_flv_demux_loop, a turn at a time; the fuel of its scan is an argument
--   Events     gst_flv_demux_sink_event, gst_flv_demux_src_event, gst_flv_demux_sink_activate,
--              gst_flv_demux_sink_activate_mode, gst_flv_demux_change_state
--   Queries    gst_flv_demux_query; what upstream answers is a parameter
--
-- Index, for uflv/gstindex.c, uflv/gstindex.h and uflv/gstmemindex.c:
--   Entry      entries and their associations, gst_index_entry_assoc_map; a gint64 is its 64 bits
--   Trees      GLib's GTree as a parameter: a binary tree of keys and values, g_tree_search as a walk
--              from its root, and what g_tree_insert makes of its keys in their order
--   Memory     gst_mem_index_add_entry, gst_mem_index_get_assoc_entry and what they call; the hash
--              tables are lists, the associations a list with the latest first, and an entry has the
--              address of its block, which g_list_find compares. A load from behind an entry's
--              associations is `none`.
--   Objects    gst_index_init, gst_index_add_id, gst_index_get_writer_id, gst_index_add_associationv,
--              gst_index_get_assoc_entry, for an index whose class is that of GstMemIndex
--   Ops        the demuxer's calls of an index (IndexOps) answered by these
--   Sections   the demuxer's way back through a file with them
-- The children of Memory lead from one search (Search, Found, Lower, Higher) by what a tree holds
-- (Contents, History) to lookups (Lookup, Finds, Queries, KeyUnits).
--
-- A load from outside of a buffer is `none`. Script/parse_items has fuel, of which parse_tag_script gives
-- two units more than there are bytes left: an item takes three bytes at least. Chain/parse_loop has
-- fuel, two turns for each byte and three more: a turn takes bytes, or leads to a state in which the next
-- one does. Pull/Scan/create_index takes its fuel as an argument: a turn for each byte of the file, and one
-- more. The results below say that this is enough. A tag list is what was added to it since it was
-- cleared, and a C string that was read is its bytes. The two booleans that only silence a warning are
-- left out.
--
-- Tests has a sample platform, peers and pads, Tests/Muxer applies the muxer's theorems to them, and
-- Tests/Demuxer and Tests/Streams those of the demuxer to Tests/Samples. Tests/Indexes has trees that
-- are sorted lists, and Tests/Turns the end of a file.
--
-- Not modelled: locks and reference counts, log messages, class registration (which, with the disposal
-- of the object, is all that is left of uflv/gstflvdemux.c), freeing of the index objects, the camera
-- source, the overlay, the C++ program, and the copies of other projects in third_party.
pub mod Common
pub mod Gst
pub mod Mux
pub mod Index
pub mod Demux
pub mod Tests
