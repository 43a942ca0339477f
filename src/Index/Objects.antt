-- ===== src/Index/Objects.antt =====
-- GstIndex (uflv/gstindex.c), whose class is that of GstMemIndex: groups, writers and entries.
use ubox_publisher.Common.{
  ℕ, ◌+◌, Bool, true, false, not, ◌||◌, Option, none, some, List, [], ◌∷◌, ◌++◌, ◌==◌,
  if◌then◌else◌, u32,
}
use ubox_publisher.Common.Memory.{Bytes}
use ubox_publisher.Common.Options.{◌>>=◌}
use ubox_publisher.Index.Entry.{
  LookupMethod, Association, AssocEntry, IndexEntry, id_entry, association_entry, invalid_id,
}
use ubox_publisher.Index.Trees.{Trees}
use ubox_publisher.Index.Memory.{MemIndex, init}
use ubox_publisher.Index.Memory

-- GstIndexCertainty
pub data Certainty : Type 0 where
  index_unknown index_certain index_fuzzy : Certainty

-- GstIndexGroup; a peer group of -1 is `none`. Nothing adds entries to a group.
pub record IndexGroup : Type 0 where
  pub groupnum : ℕ
  pub certainty : Certainty
  pub peergroup : Option ℕ

-- GstIndexResolverMethod, and the functions of the table `resolvers`
pub data ResolverMethod : Type 0 where
  resolver_custom resolver_gtype resolver_path : ResolverMethod

pub data Resolver : Type 0 where
  gtype_resolver path_resolver : Resolver

abbrev pub resolvers : ResolverMethod → Option Resolver
resolvers resolver_custom = none
resolvers resolver_gtype = some gtype_resolver
resolvers resolver_path = some path_resolver

-- What GStreamer says of an object: its path, whether it is a pad, its parent, its name, and the
-- name of its type.
pub record Objects : Type 0 where
  pub path_string : ℕ → Bytes
  pub is_pad : ℕ → Bool
  pub parent : ℕ → Option ℕ
  pub name : ℕ → Bytes
  pub type_name : ℕ → Bytes

-- GstIndex with the memory index, and what the signal entry-added told, the latest first. A writer
-- is cached by its address, with the id and the description of its entry.
pub record Index (T : Type 0) : Type 0 where
  pub groups : List IndexGroup
  pub curgroup : IndexGroup
  pub maxgroup : ℕ
  pub method : ResolverMethod
  pub resolver : Option Resolver
  pub writers : List (ℕ × (ℕ × Bytes))
  pub last_id : ℕ
  pub writable : Bool
  pub readable : Bool
  pub memory : MemIndex T
  pub added : List IndexEntry

abbrev pub group_new : ℕ → IndexGroup
group_new groupnum = record { groupnum = groupnum; certainty = index_unknown; peergroup = none }

unfoldable pub path_string : Objects → ℕ → Bytes
path_string objects writer = objects.path_string writer

abbrev pub pad_string : Objects → ℕ → Option ℕ → Bytes
pad_string objects writer none = objects.name writer
pad_string objects writer (some element) = objects.type_name element ++ (b'.' ∷ objects.name writer)

unfoldable pub gtype_string : Objects → ℕ → Bytes
gtype_string objects writer =
    if objects.is_pad writer
    then pad_string objects writer (objects.parent writer)
    else objects.type_name writer

abbrev pub resolve : Objects → Resolver → ℕ → Bytes
resolve objects gtype_resolver writer = gtype_string objects writer
resolve objects path_resolver writer = path_string objects writer

module _ (g : Trees AssocEntry) where
  open g use {Tree}

  unfoldable pub index_init : Index Tree
  index_init = record {
    groups = group_new 0 ∷ [];
    curgroup = group_new 0;
    maxgroup = 0;
    method = resolver_path;
    resolver = some path_resolver;
    writers = [];
    last_id = 0;
    writable = true;
    readable = true;
    memory = init g;
    added = [];
  }

  unfoldable pub set_resolver : ResolverMethod → Index Tree → Index Tree
  set_resolver method index = record index { method = method; resolver = resolvers method }

  -- The class adds it, and then the signal is emitted.
  unfoldable pub add_entry : IndexEntry → Index Tree → Option (Index Tree)
  add_entry entry index = do
    memory ← Memory.add_entry g entry index.memory
    some (record index { memory = memory; added = entry ∷ index.added })

  -- Whether an entry was made.
  unfoldable pub add_id : ℕ → Bytes → Index Tree → Option (Bool × Index Tree)
  unfolding add_entry
  add_id id description index =
      let added = (do index' ← add_entry (id_entry id description) index; some (true, index')) in
      if not index.writable || (id == invalid_id) then some (false, index) else added

  -- The entry in a new block, if one was made.
  unfoldable pub add_associationv :
      ℕ → ℕ → ℕ → List Association → Index Tree → Option (Option AssocEntry × Index Tree)
  unfolding add_entry
  add_associationv address id flags [] index = some (none, index)
  add_associationv address id flags (a ∷ as') index =
      let entry : AssocEntry = record {
        address = address;
        id = id;
        assocs = a ∷ as';
        flags = flags;
      } in
      let added = (do
        index' ← add_entry (association_entry entry) index
        some (some entry, index')) in
      if not index.writable || (id == invalid_id) then some (none, index) else added

  unfoldable pub get_assoc_entry :
      ℕ → LookupMethod → ℕ → ℕ → ℕ → Index Tree → Option (Option AssocEntry)
  get_assoc_entry id method flags format value index =
      if id == invalid_id
      then some none
      else Memory.get_assoc_entry g id method flags format value index.memory

  abbrev pub cached : ℕ → List (ℕ × (ℕ × Bytes)) → Option (ℕ × Bytes)
  cached writer [] = none
  cached writer ((w, entry) ∷ ws) = elim (w == writer) [
    | true ↦ some entry
    | false ↦ cached writer ws
  ]

  -- The id of a new writer, whose entry is cached even if it was not added.
  unfoldable pub new_writer : ℕ → Bytes → Index Tree → Option ((Bool × ℕ) × Index Tree)
  unfolding add_id
  new_writer writer description index = do
    let id = u32 (index.last_id + 1)
    (_, index') ← add_id id description (record index { last_id = id })
    some ((true, id), record index' { writers = (writer, (id, description)) ∷ index'.writers })

  -- The result, and `*id`.
  unfoldable pub get_writer_id : Objects → ℕ → Index Tree → Option ((Bool × ℕ) × Index Tree)
  get_writer_id objects writer index = elim (cached writer index.writers) [
    | some (id, description) ↦ some ((true, id), index)
    | none ↦ elim index.resolver [
      | none ↦ some ((false, invalid_id), index)
      | some resolver ↦ new_writer writer (resolve objects resolver writer) index
    ]
  ]
