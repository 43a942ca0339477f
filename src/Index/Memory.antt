-- ===== src/Index/Memory.antt =====
-- GstMemIndex (uflv/gstmemindex.c): for each writer and format, a tree of the entries by value.
pub mod Search
pub mod Found
pub mod Lower
pub mod Higher
pub mod Contents
pub mod History
pub mod Lookup
pub mod Finds
pub mod Keeps
pub mod Queries
pub mod KeyUnits
use ubox_publisher.Common.{
  ℕ, ◌+◌, ◌-◌, ◌^◌, Bool, true, false, not, ◌&&◌, Option, none, some, List, [], ◌∷◌, ltb, leb, ◌==◌,
  if◌then◌else◌, u64, sub64,
}
use ubox_publisher.Common.Options.{◌>>=◌}
use ubox_publisher.Index.Entry.{
  LookupMethod, lookup_exact, lookup_before, lookup_after, is_exact, Association, AssocEntry,
  IndexEntry, id_entry, association_entry, object_entry, format_entry, value_at, has_flags,
}
use ubox_publisher.Index.Trees.{Trees, Sign, negative, null, positive}

-- GstMemIndexFormatIndex
pub record FormatIndex (T : Type 0) : Type 0 where
  pub format : ℕ
  pub offset : ℕ
  pub tree : T

-- GstMemIndexId
pub record WriterIndex (T : Type 0) : Type 0 where
  pub id : ℕ
  pub format_index : List (FormatIndex T)

-- GstMemIndex: the associations, the latest first, and the two levels of hash tables as lists.
pub record MemIndex (T : Type 0) : Type 0 where
  pub associations : List AssocEntry
  pub id_index : List (WriterIndex T)

-- GstMemIndexSearchData
pub record SearchData : Type 0 where
  pub value : ℕ
  pub offset : ℕ
  pub exact : Bool
  pub lower : Option AssocEntry
  pub low_diff : ℕ
  pub higher : Option AssocEntry
  pub high_diff : ℕ

-- `a < b` for the 64 bits of two gint64
abbrev pub signed_lt : ℕ → ℕ → Bool
signed_lt a b = ltb (u64 (a + 2 ^ 63)) (u64 (b + 2 ^ 63))

-- The sign of a gint64.
abbrev pub sign_of : ℕ → Sign
sign_of diff = if diff == 0 then null else if leb (2 ^ 63) diff then negative else positive

-- The greater value is the lesser key.
unfoldable pub mem_index_compare : ℕ → AssocEntry → AssocEntry → Option Sign
mem_index_compare offset a b = do
  val1 ← value_at offset a
  val2 ← value_at offset b
  some (sign_of (sub64 val2 val1))

-- A difference of a node below the value, and of one above it.
abbrev pub note_lower : AssocEntry → ℕ → SearchData → SearchData
note_lower entry diff data' =
    if signed_lt data'.low_diff diff
    then record data' { low_diff = diff; lower = some entry }
    else data'

abbrev pub note_higher : AssocEntry → ℕ → SearchData → SearchData
note_higher entry diff data' =
    if signed_lt diff data'.high_diff
    then record data' { high_diff = diff; higher = some entry }
    else data'

abbrev pub note : AssocEntry → ℕ → Sign → SearchData → Sign × SearchData
note entry diff negative data' = (negative, note_lower entry diff data')
note entry diff null data' = (null, data')
note entry diff positive data' = (positive, note_higher entry diff data')

unfoldable pub mem_index_search : AssocEntry → SearchData → Option (Sign × SearchData)
mem_index_search entry data' = do
  val1 ← value_at data'.offset entry
  let diff = sub64 val1 data'.value
  some (if data'.exact then (sign_of diff, data') else note entry diff (sign_of diff) data')

unfoldable pub search_data : LookupMethod → ℕ → ℕ → SearchData
search_data method offset value = record {
  value = value;
  offset = offset;
  exact = is_exact method;
  lower = none;
  low_diff = 2 ^ 63;
  higher = none;
  high_diff = 2 ^ 63 - 1;
}

-- What a search that is not exact found, or what is next to the value.
abbrev pub found_or_near : LookupMethod → Option AssocEntry → SearchData → Option AssocEntry
found_or_near method (some entry) data' = some entry
found_or_near lookup_exact none data' = none
found_or_near lookup_before none data' = data'.lower
found_or_near lookup_after none data' = data'.higher

-- g_list_find: what is in front of an entry, the nearest first, and the entry with what follows.
abbrev pub list_find :
    ℕ → List AssocEntry → List AssocEntry → Option (List AssocEntry × List AssocEntry)
list_find address seen [] = none
list_find address seen (e ∷ es) = elim (e.address == address) [
  | true ↦ some (seen, e ∷ es)
  | false ↦ list_find address (e ∷ seen) es
]

-- The loop over the list: to the first entry of the writer with the flags, or else the last one.
unfoldable pub walk : ℕ → ℕ → Option AssocEntry → List AssocEntry → Option AssocEntry
walk id flags last [] = last
walk id flags last (e ∷ es) = elim ((e.id == id) && has_flags flags e) [
  | true ↦ some e
  | false ↦ walk id flags (some e) es
]

-- The list from the entry on: backwards for entries after it, since the latest is the first.
abbrev pub walk_from :
    ℕ → LookupMethod → ℕ → Option (List AssocEntry × List AssocEntry) → Option AssocEntry
walk_from id method flags none = none
walk_from id lookup_exact flags (some (newer, at)) = none
walk_from id lookup_before flags (some (newer, at)) = walk id flags none at
walk_from id lookup_after flags (some (newer, [])) = none
walk_from id lookup_after flags (some (newer, e ∷ es)) = walk id flags none (e ∷ newer)

-- An entry without the flags.
unfoldable pub with_flags :
    ℕ → LookupMethod → ℕ → List AssocEntry → Option AssocEntry → Option AssocEntry
with_flags id method flags associations none = none
with_flags id method flags associations (some entry) =
    if has_flags flags entry
    then some entry
    else walk_from id method flags (list_find entry.address [] associations)

module _ (g : Trees AssocEntry) where
  open g use {Tree}

  abbrev pub init : MemIndex Tree
  init = record { associations = []; id_index = [] }

  abbrev pub find_id : ℕ → List (WriterIndex Tree) → Option (WriterIndex Tree)
  find_id id [] = none
  find_id id (w ∷ ws) = elim (w.id == id) [ true ↦ some w | false ↦ find_id id ws ]

  abbrev pub find_format : ℕ → List (FormatIndex Tree) → Option (FormatIndex Tree)
  find_format format [] = none
  find_format format (f ∷ fs) = elim (f.format == format) [
    | true ↦ some f
    | false ↦ find_format format fs
  ]

  unfoldable pub add_id : ℕ → MemIndex Tree → MemIndex Tree
  add_id id mem = elim (find_id id mem.id_index) [
    | none ↦ record mem { id_index = record { id = id; format_index = [] } ∷ mem.id_index }
    | some w ↦ mem
  ]

  abbrev pub insert_at : AssocEntry → FormatIndex Tree → Option (FormatIndex Tree)
  insert_at entry f = do
    tree ← g.insert (mem_index_compare f.offset) entry entry f.tree
    some (record f { tree = tree })

  -- The entry in the tree of a format, which is made where there is none: it keeps the place that
  -- the format has among the associations of this entry.
  unfoldable pub index_format :
      AssocEntry → ℕ → ℕ → List (FormatIndex Tree) → Option (List (FormatIndex Tree))
  index_format entry i format [] = do
    f ← insert_at entry (record { format = format; offset = i; tree = g.empty })
    some (f ∷ [])
  index_format entry i format (f ∷ fs) = elim (f.format == format) [
    | true ↦ insert_at entry f >>= λ f'. some (f' ∷ fs)
    | false ↦ index_format entry i format fs >>= λ fs'. some (f ∷ fs')
  ]

  unfoldable pub index_formats :
      AssocEntry → ℕ → List Association → List (FormatIndex Tree) → Option (List (FormatIndex Tree))
  index_formats entry i [] fs = some fs
  index_formats entry i (a ∷ as') fs =
      index_format entry i a.format fs >>= λ fs'. index_formats entry (i + 1) as' fs'

  -- The trees of the entry's writer, if the writer is known.
  unfoldable pub index_writer :
      AssocEntry → List (WriterIndex Tree) → Option (List (WriterIndex Tree))
  index_writer entry [] = some []
  index_writer entry (w ∷ ws) = elim (w.id == entry.id) [
    | true ↦ index_formats entry 0 entry.assocs w.format_index >>= λ fs.
        some (record w { format_index = fs } ∷ ws)
    | false ↦ index_writer entry ws >>= λ ws'. some (w ∷ ws')
  ]

  unfoldable pub add_association : AssocEntry → MemIndex Tree → Option (MemIndex Tree)
  add_association entry mem = do
    ws ← index_writer entry mem.id_index
    some (record { associations = entry ∷ mem.associations; id_index = ws })

  unfoldable pub add_entry : IndexEntry → MemIndex Tree → Option (MemIndex Tree)
  unfolding add_id add_association
  add_entry (id_entry id description) mem = some (add_id id mem)
  add_entry (association_entry entry) mem = add_association entry mem
  add_entry (object_entry id key type object) mem = some mem
  add_entry (format_entry id format key) mem = some mem

  -- The search in the tree of a format.
  unfoldable pub search_format : LookupMethod → ℕ → FormatIndex Tree → Option (Option AssocEntry)
  search_format method value f = do
    (entry, data') ← g.search mem_index_search (search_data method f.offset value) f.tree
    some (found_or_near method entry data')

  -- The outer `none` is a fault, the inner one NULL.
  unfoldable pub get_assoc_entry :
      ℕ → LookupMethod → ℕ → ℕ → ℕ → MemIndex Tree → Option (Option AssocEntry)
  get_assoc_entry id method flags format value mem = elim (find_id id mem.id_index) [
    | none ↦ some none
    | some w ↦ elim (find_format format w.format_index) [
      | none ↦ some none
      | some f ↦ search_format method value f >>= λ entry.
          some (with_flags id method flags mem.associations entry)
    ]
  ]
