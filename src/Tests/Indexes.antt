-- ===== src/Tests/Indexes.antt =====
-- The theorems on the index objects at sample indexes; the trees are sorted lists.
use ubox_publisher.Common.{
  ℕ, ◌<◌, ◌≡◌, ◌≢◌, refl, sym, ap, ◌∙◌, subst, Bool, true, false, Option, none, some, List, [], ◌∷◌,
  inl, inr, All, ltb, if◌then◌else◌, arith,
}
use ubox_publisher.Common.Memory.{codes}
use ubox_publisher.Common.Options.{◌>>=◌, >>=-some}
use ubox_publisher.Index.Entry.{lookup_before, lookup_after, AssocEntry, flag_none, flag_key_unit}
use ubox_publisher.Index.Trees.{
  Trees, Sign, negative, null, positive, Nodes, leaf, node, in_order, put, by_rank, search_nodes,
}
use ubox_publisher.Index.Memory.{MemIndex, add_association, get_assoc_entry}
use ubox_publisher.Index.Entry.{entry_assoc_map}
use ubox_publisher.Common.Memory.{Bytes}
use ubox_publisher.Demux.State.{SeekEvent, DemuxSegment}
use ubox_publisher.Demux.Env.{Env}
use ubox_publisher.Demux.Send.{State}
use ubox_publisher.Demux.Seek.{find_offset}
use ubox_publisher.Index.Objects.{
  Index, Objects, group_new, resolver_path, path_resolver, get_writer_id, cached,
}
use ubox_publisher.Index.Writers.{IsNumbered, get_writer_id_new}
use ubox_publisher.Index.Ops.{with_memory, find_offset-IsLast}
use ubox_publisher.Index.Sections.{IsSection, seek_to_prev_keyframe-IsLast}
use ubox_publisher.Gst.Data.{ok}
use ubox_publisher.Demux.Pull.Sections.{seek_to_prev_keyframe}
use ubox_publisher.Tests.Samples.{place_platform, sample_env, sample_demux}
use ubox_publisher.Index.Memory.Search.{val}
use ubox_publisher.Index.Memory.Lookup.{Finds}
use ubox_publisher.Index.Memory.Keeps.{
  of_times, of_positions, timed_entry, IsIndexOf, add_association-IsIndexOf,
}
use ubox_publisher.Index.Memory.Queries.{format_of, place_of, get_assoc_entry-Finds}
use ubox_publisher.Index.Memory.KeyUnits.{IsDistinct, IsInOrder, IsLast, get_assoc_entry-IsLast}

module _ {K : Type 0} where
  abbrev spine : List (K × K) → Nodes K
  spine [] = leaf
  spine ((k, v) ∷ es) = node leaf k v (spine es)

  in_order-spine : (es : List (K × K)) → in_order (spine es) ≡ es
  in_order-spine [] = refl
  in_order-spine ((k, v) ∷ es) = ap (λ r. (k, v) ∷ r) (in_order-spine es)

  abbrev place : K → K → K → K → List (K × K) → Option (List (K × K)) → Sign → Option (List (K × K))
  place k v a w es rest negative = some ((k, v) ∷ ((a, w) ∷ es))
  place k v a w es rest null = some ((a, v) ∷ es)
  place k v a w es rest positive = rest >>= λ r. some ((a, w) ∷ r)

  insert_sorted : (K → K → Option Sign) → K → K → List (K × K) → Option (List (K × K))
  insert_sorted cmp k v [] = some ((k, v) ∷ [])
  insert_sorted cmp k v ((a, w) ∷ es) =
      let rest = insert_sorted cmp k v es in cmp k a >>= place k v a w es rest

  place_by_rank :
      (k v a w : K) (es r : List (K × K)) (b c : Bool)
      → place k v a w es (some r) (if b then negative else if c then positive else null)
        ≡ some (if b then (k, v) ∷ ((a, w) ∷ es) else if c then (a, w) ∷ r else (a, v) ∷ es)
  place_by_rank k v a w es r true c = refl
  place_by_rank k v a w es r false true = refl
  place_by_rank k v a w es r false false = refl

  insert_sorted-put :
      (rank : K → ℕ) (cmp : K → K → Option Sign) (k v : K) (es : List (K × K))
      → All (λ e. cmp k e.0 ≡ some (by_rank (rank k) (rank e.0))) es
      → insert_sorted cmp k v es ≡ some (put rank k v es)
  unfolding insert_sorted
  insert_sorted-put rank cmp k v [] h = refl
  insert_sorted-put rank cmp k v ((a, w) ∷ es) (c, h) =
      >>=-some (place k v a w es (insert_sorted cmp k v es)) c
      ∙ ap (λ o. place k v a w es o (by_rank (rank k) (rank a)))
          (insert_sorted-put rank cmp k v es h)
      ∙ place_by_rank k v a w es (put rank k v es) (ltb (rank k) (rank a)) (ltb (rank a) (rank k))

abbrev list_trees : Trees AssocEntry
list_trees = record {
  Tree = List (AssocEntry × AssocEntry);
  nodes = spine;
  empty = [];
  insert = insert_sorted;
  search = λ f s t. search_nodes f s (spine t);
  nodes-empty = refl;
  search_lem = λ f s t. refl;
  insert_lem = λ rank cmp k v t asc h. (
    put rank k v t,
    (
      insert_sorted-put rank cmp k v t (
          subst (λ es. All (λ e. cmp k e.0 ≡ some (by_rank (rank k) (rank e.0))) es)
            (in_order-spine t) h),
      in_order-spine (put rank k v t) ∙ ap (put rank k v) (sym (in_order-spine t)),
    ),
  );
}

abbrev keyframe : AssocEntry
keyframe = timed_entry 64 1 true 0 13

abbrev later_frame : AssocEntry
later_frame = timed_entry 128 1 false 40 500

-- The tree of the two, by time and by position.
abbrev both : List (AssocEntry × AssocEntry)
both = (later_frame, later_frame) ∷ ((keyframe, keyframe) ∷ [])

abbrev sample_memory : MemIndex list_trees.Tree
sample_memory = record {
  associations = later_frame ∷ (keyframe ∷ []);
  id_index =
      record {
        id = 1;
        format_index = of_times list_trees both ∷ (of_positions list_trees both ∷ []);
      }
      ∷ [];
}

sample_memory-IsIndexOf : IsIndexOf list_trees 1 sample_memory
unfolding entry_assoc_map
sample_memory-IsIndexOf = record {
  fits = (
    (refl, (((refl, omega arith), (refl, omega arith)), (false, (refl, (refl, refl))))),
    ((refl, (((refl, omega arith), (refl, omega arith)), (true, (refl, (refl, refl))))), tt),
  );
  fs = of_times list_trees both ∷ (of_positions list_trees both ∷ []);
  writer = refl;
  trees = (both, (both, (refl, (refl, refl))));
}

get_assoc_entry-Finds_example :
    (r : Option AssocEntry) × ((get_assoc_entry list_trees 1 lookup_after flag_none
          (format_of true)
          7
          sample_memory
        ≡ some r)
      × Finds (place_of true) 7 lookup_after sample_memory.associations r)
get_assoc_entry-Finds_example =
    get_assoc_entry-Finds list_trees 1 lookup_after true 7 sample_memory (omega arith)
      sample_memory-IsIndexOf

add_association-IsIndexOf_example :
    (mem' : MemIndex list_trees.Tree) × ((add_association list_trees
          (timed_entry 192 1 true 80 900)
          sample_memory
        ≡ some mem')
      × (IsIndexOf list_trees 1 mem'
          × (mem'.associations ≡ timed_entry 192 1 true 80 900 ∷ sample_memory.associations)))
add_association-IsIndexOf_example =
    add_association-IsIndexOf list_trees sample_memory 192 1 true 80 900 (omega arith) (omega arith)
      sample_memory-IsIndexOf

sample-IsInOrder : IsInOrder 0 sample_memory.associations
sample-IsInOrder = ((omega arith, tt), (tt, tt))

sample-IsDistinct : IsDistinct sample_memory.associations
sample-IsDistinct = (((λ q. absurd (omega arith)), tt), (tt, tt))

get_assoc_entry-IsLast_example :
    (j : AssocEntry) × ((get_assoc_entry list_trees 1 lookup_before flag_key_unit
          (format_of true)
          50
          sample_memory
        ≡ some (some j))
      × IsLast (place_of true) flag_key_unit 50 sample_memory.associations j)
get_assoc_entry-IsLast_example =
    get_assoc_entry-IsLast list_trees 1 flag_key_unit true 50 sample_memory (omega arith)
      sample_memory-IsIndexOf sample-IsInOrder sample-IsDistinct (inr (inl (refl, omega arith)))

-- A whole index, without groups but the first.
abbrev sample_index : Index list_trees.Tree
sample_index = record {
  groups = group_new 0 ∷ [];
  curgroup = group_new 0;
  maxgroup = 0;
  method = resolver_path;
  resolver = some path_resolver;
  writers = (8, (1, codes "/demux")) ∷ [];
  last_id = 1;
  writable = true;
  readable = true;
  memory = sample_memory;
  added = [];
}

abbrev sample_objects : Objects
sample_objects = record {
  path_string = λ w. codes "/element";
  is_pad = λ w. false;
  parent = λ w. none;
  name = λ w. codes "element";
  type_name = λ w. codes "GstElement";
}

get_writer_id_new_example :
    (id : ℕ) × ((index' : Index list_trees.Tree) × ((get_writer_id list_trees sample_objects 9
            sample_index
          ≡ some ((true, id), index'))
        × (IsNumbered list_trees index'
            × ((get_writer_id list_trees sample_objects 9 index' ≡ some ((true, id), index'))
                × ((other : ℕ) (entry : ℕ × Bytes)
                    → cached list_trees other sample_index.writers ≡ some entry
                    → entry.0 ≢ id)))))
get_writer_id_new_example =
    get_writer_id_new list_trees sample_objects 9 path_resolver sample_index
      (omega arith, (omega arith, (tt, tt))) (omega arith) refl refl

abbrev seek_to : SeekEvent
seek_to = record {
  is_time = true;
  flush = true;
  snap_after = false;
  key_unit = true;
  start = some 50;
  stop = none;
}

abbrev segment_at : DemuxSegment
segment_at = record {
  backwards = false;
  is_segment = false;
  duration = 900;
  start = 50;
  stop = 900;
  time = 50;
  position = 50;
}

abbrev memory_env : Env place_platform
memory_env = with_memory list_trees 1 (λ i. 256) place_platform sample_env

abbrev indexed_demux : State place_platform memory_env
indexed_demux = record {
  state = sample_demux.state;
  offset = sample_demux.offset;
  cur_tag_offset = sample_demux.cur_tag_offset;
  tag_size = sample_demux.tag_size;
  tag_data_size = sample_demux.tag_data_size;
  duration = sample_demux.duration;
  audio_stream = sample_demux.audio_stream;
  video_stream = sample_demux.video_stream;
  rate = sample_demux.rate;
  channels = sample_demux.channels;
  width = sample_demux.width;
  has_audio = sample_demux.has_audio;
  has_video = sample_demux.has_video;
  need_header = sample_demux.need_header;
  strict = sample_demux.strict;
  flushing = sample_demux.flushing;
  no_more_pads = sample_demux.no_more_pads;
  random_access = sample_demux.random_access;
  seeking = sample_demux.seeking;
  building_index = sample_demux.building_index;
  seek_event = sample_demux.seek_event;
  seek_time = 0;
  file_size = sample_demux.file_size;
  from_offset = sample_demux.from_offset;
  to_offset = sample_demux.to_offset;
  group_id = sample_demux.group_id;
  segment = sample_demux.segment;
  new_seg_event = sample_demux.new_seg_event;
  index = some sample_index;
  own_index = false;
  indexed = sample_demux.indexed;
  upstream_seekable = sample_demux.upstream_seekable;
  index_max_pos = sample_demux.index_max_pos;
  index_max_time = sample_demux.index_max_time;
  times = sample_demux.times;
  filepositions = sample_demux.filepositions;
  taglist = sample_demux.taglist;
  audio_tags = sample_demux.audio_tags;
  video_tags = sample_demux.video_tags;
  w = sample_demux.w;
  h = sample_demux.h;
  par_x = sample_demux.par_x;
  par_y = sample_demux.par_y;
  got_par = sample_demux.got_par;
  framerate = sample_demux.framerate;
  sent = sample_demux.sent;
}

find_offset-IsLast_example :
    (j : AssocEntry) × ((find_offset place_platform memory_env seek_to segment_at indexed_demux
        ≡ (val 1 j, record segment_at { start = val 0 j; time = val 0 j; position = val 0 j }))
      × IsLast 0 flag_key_unit 50 sample_memory.associations j)
find_offset-IsLast_example =
    find_offset-IsLast list_trees 1 (λ i. 256) place_platform sample_env seek_to segment_at
      indexed_demux sample_index refl refl (λ q. absurd (omega arith)) (omega arith)
      sample_memory-IsIndexOf sample-IsInOrder sample-IsDistinct (inr (inl (refl, omega arith)))

-- A section that is played backwards, which began at byte 500 and at the time of the second frame.
abbrev reverse_demux : State place_platform memory_env
reverse_demux = record indexed_demux {
  from_offset = some 500;
  video_stream = record indexed_demux.video_stream { first_ts = 40 };
  segment = record indexed_demux.segment { backwards = true; start = 0 };
}

seek_to_prev_keyframe-IsLast_example :
    (j : AssocEntry) × ((s : State place_platform memory_env) × ((seek_to_prev_keyframe
            place_platform memory_env reverse_demux
          ≡ (ok, s))
        × IsSection list_trees 1 (λ i. 256) place_platform sample_env (val 1 j) 500 s)
      × ((val 1 j < 500) × IsLast 1 flag_key_unit 499 sample_memory.associations j))
seek_to_prev_keyframe-IsLast_example =
    seek_to_prev_keyframe-IsLast list_trees 1 (λ i. 256) place_platform sample_env reverse_demux
      sample_index 500 refl refl refl (λ q. absurd (omega arith)) (omega arith)
      sample_memory-IsIndexOf ((omega arith, tt), (tt, tt)) sample-IsDistinct
      (inr (inl (refl, omega arith)))
