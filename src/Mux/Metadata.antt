-- ===== src/Mux/Metadata.antt =====
-- gst_flv_mux_create_metadata: the onMetaData script tag.
pub mod Values
pub mod Sizes
pub mod Placeholders
pub mod Whole
use ubox_publisher.Common.{
  ℕ, ◌+◌, ◌-◌, ◌/◌, ◌%◌, Bool, true, false, not, ◌&&◌, Option, none, some, List, [], ◌∷◌, ◌++◌,
  ◌==◌, if◌then◌else◌, length,
}
use ubox_publisher.Common.Memory.{Bytes, Store, store, fill, codes}
use ubox_publisher.Common.Options.{◌>>=◌}
use ubox_publisher.Gst.Numbers.{clock_time_none, is_valid, second, ℤ}
use ubox_publisher.Gst.Data.{Tag, Caps}
use ubox_publisher.Gst.Platform.{Platform}
use ubox_publisher.Mux.State.{Kind, MuxPad, Mux}
use ubox_publisher.Mux.Push.{Peers}
use ubox_publisher.Mux.Script.{
  have_pad, preallocate_index, create_number_script_value, create_string_script_value,
}
use ubox_publisher.Mux.Index.{longer}

-- `script_tag` with `tags_written`, and mux->duration.
pub record Script : Type 0 where
  pub bytes : Bytes
  pub written : ℕ
  pub duration : ℕ

-- gst_buffer_append
abbrev pub append : Script → Bytes → Script
append s block = record s { bytes = s.bytes ++ block }

-- gst_buffer_append, and `tags_written++`
abbrev pub append_tag : Script → Bytes → Script
append_tag s block = record s { bytes = s.bytes ++ block; written = s.written + 1 }

-- The durations that the peers of the sink pads answer, GST_CLOCK_TIME_NONE passed over.
unfoldable pub query_duration : (Kind → Option ℕ) → List Kind → ℕ → ℕ
query_duration query [] duration = duration
query_duration query (k ∷ ks) duration = query_duration query ks (elim (query k) [
  | none ↦ duration
  | some dur ↦ if is_valid dur then longer duration dur else duration
])

abbrev pub header_stores : List Store
header_stores =
    (0, 18 ∷ [])
    ∷ (1, 0 ∷ [])
    ∷ (2, 0 ∷ [])
    ∷ (3, 0 ∷ [])
    ∷ (4, 0 ∷ 0 ∷ 0 ∷ 0 ∷ [])
    ∷ (8, 0 ∷ 0 ∷ 0 ∷ [])
    ∷ []

abbrev pub name_stores : List Store
name_stores = (0, 2 ∷ []) ∷ (1, 0 ∷ []) ∷ (2, 10 ∷ []) ∷ (3, codes "onMetaData") ∷ []

abbrev pub marker_stores : List Store
marker_stores = (0, 0 ∷ []) ∷ (1, 0 ∷ []) ∷ (2, 9 ∷ []) ∷ []

module _ (p : Platform) where
  open p use {Double, write_uint32_be, write_double_be, malloc}

  abbrev pub seconds : ℕ → Double
  seconds t = p.divide (p.uint64_to_double t) (p.uint64_to_double second)

  abbrev pub array_stores : ℕ → List Store
  array_stores n_tags = (0, 8 ∷ []) ∷ (1, write_uint32_be n_tags) ∷ []

  abbrev pub size_stores : ℕ → List Store
  size_stores size = (0, write_uint32_be size) ∷ []

  abbrev pub patch_stores : ℕ → ℕ → List Store
  patch_stores data_size written =
      (1, data_size / 65536 % 256 ∷ [])
      ∷ (2, data_size / 256 % 256 ∷ [])
      ∷ (3, data_size % 256 ∷ [])
      ∷ (11 + 13 + 1, write_uint32_be written)
      ∷ []

  -- The tag's header with no size yet, the string onMetaData, and the array's header.
  unfoldable pub script_head : ℕ → Option Bytes
  script_head n_tags = do
    tag ← fill header_stores (malloc 11)
    name ← fill name_stores (malloc 13)
    array ← fill (array_stores n_tags) (malloc 5)
    some (tag ++ (name ++ array))

  unfoldable pub put_number : Bytes → Double → Script → Option Script
  put_number name value s = do
    block ← create_number_script_value p name value
    some (append_tag s block)

  unfoldable pub put_string : Bytes → Bytes → Script → Option Script
  put_string name value s = do
    block ← create_string_script_value p name value
    some (append_tag s block)

  -- A duration, a file size and the place of the index, all to be rewritten at the end.
  unfoldable pub put_placeholders : Bool → Script → Option Script
  put_placeholders true s = some s
  put_placeholders false s = do
    s1 ← put_number (codes "duration") (p.uint64_to_double 86400) s
    s2 ← put_number (codes "filesize") (p.uint64_to_double 0) s1
    filler ← preallocate_index p
    some (append s2 filler)

  unfoldable pub put_tag : Tag → Script → Option Script
  put_tag (Tag.duration none) s = some s
  put_tag (Tag.duration (some dur)) s = some (record s { duration = dur })
  put_tag (Tag.artist none) s = some s
  put_tag (Tag.artist (some v)) s = put_string (codes "creator") v s
  put_tag (Tag.title none) s = some s
  put_tag (Tag.title (some v)) s = put_string (codes "title") v s
  put_tag _ s = some s

  unfoldable pub put_tags : List Tag → Script → Option Script
  put_tags [] s = some s
  put_tags (t ∷ ts) s = put_tag t s >>= put_tags ts

  -- The duration, if it is known by now, over the placeholder.
  unfoldable pub patch_duration : Bool → Script → Option Script
  patch_duration streamable s =
      if not streamable && is_valid s.duration
      then (do
        bytes ← store (29 + 2 + 8 + 1) (write_double_be (seconds s.duration)) s.bytes
        some (record s { bytes = bytes }))
      else some s

  unfoldable pub put_int : Bytes → Option ℤ → Script → Option Script
  put_int name none s = some s
  put_int name (some v) s = put_number name (p.int_to_double v) s

  unfoldable pub put_aspect_ratio : Option (ℤ × ℤ) → Script → Option Script
  put_aspect_ratio none s = some s
  put_aspect_ratio (some (num, den)) s = do
    s1 ← put_number (codes "AspectRatioX") (p.int_to_double num) s
    put_number (codes "AspectRatioY") (p.int_to_double den) s1

  unfoldable pub put_framerate : Option (ℤ × ℤ) → Script → Option Script
  put_framerate none s = some s
  put_framerate (some (num, den)) s =
      put_number (codes "framerate") (p.fraction_to_double num den) s

  unfoldable pub put_caps : MuxPad → Option Caps → Script → Option Script
  put_caps pad none s = some s
  put_caps pad (some caps) s = do
    s1 ← put_number (codes "videocodecid") (p.uint64_to_double pad.codec) s
    s2 ← put_int (codes "width") caps.width s1
    s3 ← put_int (codes "height") caps.height s2
    s4 ← put_aspect_ratio caps.pixel_aspect_ratio s3
    s5 ← put_framerate caps.framerate s4
    put_number (codes "videodatarate") (p.uint64_to_double (pad.bitrate / 1024)) s5

  unfoldable pub put_video : Option MuxPad → Option Caps → Script → Option Script
  put_video none caps s = some s
  put_video (some pad) caps s = if have_pad (some pad) then put_caps pad caps s else some s

  unfoldable pub put_audio : Option MuxPad → Script → Option Script
  put_audio none s = some s
  put_audio (some pad) s =
      if have_pad (some pad)
      then (do
        s1 ← put_number (codes "audiocodecid") (p.uint64_to_double pad.codec) s
        put_number (codes "audiodatarate") (p.uint64_to_double (pad.bitrate / 1024)) s1)
      else some s

  -- What stands between the two gotos: only in the full metadata.
  unfoldable pub put_details : Peers → Mux Double → Script → Option Script
  put_details peers mux s = do
    let duration =
        if s.duration == clock_time_none
        then query_duration peers.peer_duration mux.sinkpads s.duration
        else s.duration
    s1 ← patch_duration mux.streamable (record s { duration = duration })
    s2 ← put_video mux.video_pad (peers.current_caps Kind.video) s1
    s3 ← put_audio mux.audio_pad s2
    s4 ← put_string (codes "metadatacreator") mux.metadatacreator s3
    put_string (codes "creationdate") peers.creation_date s4

  -- The end marker, the tag's size behind it, and the sizes that were left open.
  unfoldable pub finish_script : Script → Option (Option Bytes)
  finish_script s = if s.written == 0 then some none else (do
    marker ← fill marker_stores (malloc 3)
    let tag = s.bytes ++ marker
    size ← fill (size_stores (length tag)) (malloc 4)
    let whole = tag ++ size
    bytes ← fill (patch_stores (length whole - 11 - 4) s.written) whole
    some (some bytes))

  -- The tag, or `none` where there is nothing to write, and the duration that was found.
  unfoldable pub create_metadata : Peers → Bool → Mux Double → Option (Option Bytes × ℕ)
  create_metadata peers full mux = do
    head ← script_head (length mux.tags)
    let s0 : Script = record { bytes = head; written = 0; duration = mux.duration }
    s1 ← if full then put_placeholders mux.streamable s0 else some s0
    s2 ← put_tags mux.tags s1
    s3 ← if full then put_details peers mux s2 else some s2
    tag ← finish_script s3
    some (tag, s3.duration)
