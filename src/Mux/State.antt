-- ===== src/Mux/State.antt =====
-- The muxer's pads and state (uflv/gstflvmux.h), its resets, and the actions on the state.
use ubox_publisher.Common.{ℕ, Bool, false, Option, none, some, List, []}
use ubox_publisher.Common.Memory.{Bytes}
use ubox_publisher.Gst.Numbers.{clock_time_none, clock_stime_none, max_uint}
use ubox_publisher.Gst.Data.{Buffer, Segment, Tag, MergeMode, unset}

-- The two sink pad templates; the muxer has at most one pad of each.
pub data Kind : Type 0 where
  audio video : Kind

-- GstUFlvMuxPad. `segment`, `queued` and `is_eos` are of the GstAggregatorPad in it: the buffer
-- that gst_aggregator_pad_peek_buffer returns, and what gst_aggregator_pad_is_eos says.
pub record MuxPad : Type 0 where
  pub codec : ℕ
  pub rate : ℕ
  pub width : ℕ
  pub channels : ℕ
  pub codec_data : Option Buffer
  pub bitrate : ℕ
  pub last_timestamp : ℕ
  pub pts : ℕ
  pub dts : ℕ
  pub segment : Segment
  pub queued : Option Buffer
  pub is_eos : Bool

pub data MuxState : Type 0 where
  header_state data_state : MuxState

pub record IndexEntry (D : Type 0) : Type 0 where
  pub position : D
  pub time : D

-- What the source pad emits: a buffer that was handed to gst_aggregator_finish_buffer, or a
-- segment in bytes, which moves a seekable sink to its start.
pub data Output : Type 0 where
  pushed : Buffer → Output
  moved : ℕ → Output

-- GstUFlvMux. `sinkpads` is the element's list of sink pads, `tags` and `tag_merge_mode` are of
-- its GstTagSetter, `src_segment` is of its source pad. `streamheader` is what the source caps
-- hold, and `sent` is all that the source pad emitted, the latest first.
pub record Mux (D : Type 0) : Type 0 where
  pub state : MuxState
  pub audio_pad : Option MuxPad
  pub video_pad : Option MuxPad
  pub sinkpads : List Kind
  pub streamable : Bool
  pub metadatacreator : Bytes
  pub tag_merge_mode : MergeMode
  pub tags : List Tag
  pub new_tags : Bool
  pub index : List (IndexEntry D)
  pub byte_count : ℕ
  pub duration : ℕ
  pub first_timestamp : ℕ
  pub last_dts : ℕ
  pub src_segment : Segment
  pub streamheader : Option (List Buffer)
  pub sent : List Output

-- gst_flv_mux_pad_flush
unfoldable pub pad_flush : MuxPad → MuxPad
pad_flush pad = record pad { last_timestamp = 0; pts = clock_stime_none; dts = clock_stime_none }

-- gst_flv_mux_reset_pad
unfoldable pub reset_pad : MuxPad → MuxPad
unfolding pad_flush
reset_pad pad = pad_flush (record pad {
  codec_data = none;
  codec = max_uint;
  rate = max_uint;
  width = max_uint;
  channels = max_uint;
})

module _ {D : Type 0} where
  -- gst_flv_mux_reset
  unfoldable pub reset : Mux D → Mux D
  reset mux = record mux {
    index = [];
    byte_count = 0;
    duration = clock_time_none;
    new_tags = false;
    first_timestamp = clock_stime_none;
    last_dts = 0;
    state = header_state;
    tags = [];
  }

  -- The pad behind `mux->audio_pad` or `mux->video_pad`.
  unfoldable pub get_pad : Kind → Mux D → Option MuxPad
  get_pad audio mux = mux.audio_pad
  get_pad video mux = mux.video_pad

  unfoldable pub set_pad : Kind → Option MuxPad → Mux D → Mux D
  set_pad audio pad mux = record mux { audio_pad = pad }
  set_pad video pad mux = record mux { video_pad = pad }

  -- gst_flv_mux_init, on the state that GStreamer allocates.
  unfoldable pub init : Bytes → Segment → Mux D
  unfolding reset
  init default_metadatacreator segment = reset (record {
    state = header_state;
    audio_pad = none;
    video_pad = none;
    sinkpads = [];
    streamable = false;
    metadatacreator = default_metadatacreator;
    tag_merge_mode = unset;
    tags = [];
    new_tags = false;
    index = [];
    byte_count = 0;
    duration = 0;
    first_timestamp = 0;
    last_dts = 0;
    src_segment = segment;
    streamheader = none;
    sent = [];
  })

-- An action on the state; `none` is a fault: a store outside of a block, or a failed g_assert.
abbrev pub M : Type 0 → Type 0 → Type 0
M D A = Mux D → Option (A × Mux D)

module _ {D A B : Type 0} where
  infixl 5 ◌>>=◌ ◌>>◌
  abbrev pub ◌>>=◌ : M D A → (A → M D B) → M D B
  ◌>>=◌ m f s = elim (m s) [ none ↦ none | some (a, s') ↦ f a s' ]

  abbrev pub ◌>>◌ : M D A → M D B → M D B
  m >> n = m >>= λ _. n

module _ {D A : Type 0} where
  abbrev pub pure : A → M D A
  pure a s = some (a, s)

  -- A computation that may fault and does not touch the state.
  abbrev pub lift : Option A → M D A
  lift o s = elim o [ none ↦ none | some a ↦ some (a, s) ]

  abbrev pub gets : (Mux D → A) → M D A
  gets f s = some (f s, s)

abbrev pub modify : {D : Type 0} → (Mux D → Mux D) → M D (Unit {0})
modify f s = some (tt, f s)
