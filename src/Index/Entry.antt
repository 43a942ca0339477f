-- ===== src/Index/Entry.antt =====
-- What an index holds (uflv/gstindex.h), and gst_index_entry_assoc_map.
use ubox_publisher.Common.{
  ℕ, ◌-◌, ◌^◌, Bool, true, false, Option, none, some, List, [], ◌∷◌, ◌==◌, bit_and, get_elem?,
}
use ubox_publisher.Common.Memory.{Bytes}

-- GstIndexLookupMethod
pub data LookupMethod : Type 0 where
  lookup_exact lookup_before lookup_after : LookupMethod

abbrev pub is_exact : LookupMethod → Bool
is_exact lookup_exact = true
is_exact _ = false

-- GstIndexAssociation: a GstFormat, and the 64 bits of a gint64.
pub record Association : Type 0 where
  pub format : ℕ
  pub value : ℕ

-- An entry of associations, with the block that g_slice_new gave for it.
pub record AssocEntry : Type 0 where
  pub address : ℕ
  pub id : ℕ
  pub assocs : List Association
  pub flags : ℕ

-- GstIndexEntry by its type. A key is a text, and a pointer to an object its address.
pub data IndexEntry : Type 0 where
  id_entry : ℕ → Bytes → IndexEntry
  association_entry : AssocEntry → IndexEntry
  object_entry : ℕ → Bytes → ℕ → ℕ → IndexEntry
  format_entry : ℕ → ℕ → Bytes → IndexEntry

-- GST_FORMAT_BYTES, GST_FORMAT_TIME
abbrev pub format_bytes : ℕ
format_bytes = 2

abbrev pub format_time : ℕ
format_time = 3

-- GST_INDEX_ASSOCIATION_FLAG_NONE, KEY_UNIT and DELTA_UNIT
abbrev pub flag_none : ℕ
flag_none = 0

abbrev pub flag_key_unit : ℕ
flag_key_unit = 1

abbrev pub flag_delta_unit : ℕ
flag_delta_unit = 2

-- GST_INDEX_ID_INVALID
abbrev pub invalid_id : ℕ
invalid_id = 2 ^ 32 - 1

-- GST_INDEX_ASSOC_VALUE. `none` is a load from behind the associations.
abbrev pub value_at : ℕ → AssocEntry → Option ℕ
value_at i entry = elim (get_elem? entry.assocs i) [ none ↦ none | some a ↦ some a.value ]

-- `(GST_INDEX_ASSOC_FLAGS (entry) & flags) == flags`
abbrev pub has_flags : ℕ → AssocEntry → Bool
has_flags flags entry = bit_and entry.flags flags == flags

abbrev pub first_value : ℕ → List Association → Option ℕ
first_value format [] = none
first_value format (a ∷ as') = elim (a.format == format) [
  | true ↦ some a.value
  | false ↦ first_value format as'
]

-- The value of the first association in a format.
unfoldable pub entry_assoc_map : AssocEntry → ℕ → Option ℕ
entry_assoc_map entry format = first_value format entry.assocs
