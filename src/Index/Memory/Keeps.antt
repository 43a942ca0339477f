-- ===== src/Index/Memory/Keeps.antt =====
-- The invariant of the memory index that the demuxer fills, with times and positions.
use ubox_publisher.Common.{
  ℕ, ◌-◌, ◌^◌, ◌<◌, ◌≡◌, refl, sym, ap, ◌∙◌, subst, Bool, some, List, [], ◌∷◌, All, All-map,
  if◌then◌else◌, ==_refl,
}
use ubox_publisher.Common.Options.{>>=-some}
use ubox_publisher.Index.Entry.{
  AssocEntry, format_time, format_bytes, flag_key_unit, flag_delta_unit, entry_assoc_map,
}
use ubox_publisher.Index.Trees.{Trees, in_order, put, Ascending, by_rank}
use ubox_publisher.Index.Memory.{
  FormatIndex, WriterIndex, MemIndex, mem_index_compare, init, add_id, insert_at, index_format,
  index_formats, index_writer, add_association, find_id,
}
use ubox_publisher.Index.Memory.Search.{val, IsValued, rank_at}
use ubox_publisher.Index.Memory.Contents.{contents, contents-IsSorted, contents-compare}

abbrev pub flags_of : Bool → ℕ
flags_of keyframe = if keyframe then flag_key_unit else flag_delta_unit

-- The entry that the demuxer adds for a time and a position.
abbrev pub timed_entry : ℕ → ℕ → Bool → ℕ → ℕ → AssocEntry
timed_entry address id keyframe ts pos = record {
  address = address;
  id = id;
  assocs =
      record { format = format_time; value = ts }
      ∷ record { format = format_bytes; value = pos }
      ∷ [];
  flags = flags_of keyframe;
}

-- Such an entry of a writer, with values that a gint64 holds.
abbrev pub Fits : ℕ → AssocEntry → Type 0
Fits id e =
    (e.id ≡ id)
    × ((IsValued 0 e × IsValued 1 e)
        × ((keyframe : Bool) × ((e.flags ≡ flags_of keyframe)
              × ((entry_assoc_map e format_time ≡ some (val 0 e))
                  × (entry_assoc_map e format_bytes ≡ some (val 1 e))))))

module _ (g : Trees AssocEntry) where
  abbrev pub of_times : g.Tree → FormatIndex g.Tree
  of_times tree = record { format = format_time; offset = 0; tree = tree }

  abbrev pub of_positions : g.Tree → FormatIndex g.Tree
  of_positions tree = record { format = format_bytes; offset = 1; tree = tree }

  abbrev pub TreesOf : List AssocEntry → List (FormatIndex g.Tree) → Type 0
  TreesOf [] fs = fs ≡ []
  TreesOf (e ∷ es) fs =
      (times : g.Tree) × ((positions : g.Tree) × ((fs
            ≡ of_times times ∷ (of_positions positions ∷ []))
          × ((in_order (g.nodes times) ≡ contents 0 (e ∷ es))
              × (in_order (g.nodes positions) ≡ contents 1 (e ∷ es)))))

  -- One writer, with entries that fit, and the trees of its times and positions.
  pub record IsIndexOf (id : ℕ) (mem : MemIndex g.Tree) : Type 0 where
    pub fits : All (Fits id) mem.associations
    pub fs : List (FormatIndex g.Tree)
    pub writer : mem.id_index ≡ record { id = id; format_index = fs } ∷ []
    pub trees : TreesOf mem.associations fs

  pub init-IsIndexOf : (id : ℕ) → IsIndexOf id (add_id g id (init g))
  unfolding add_id
  init-IsIndexOf id = record { fits = tt; fs = []; writer = refl; trees = refl }

  grown :
      (i : ℕ) (e : AssocEntry) (tree : g.Tree) (hist : List AssocEntry)
      → IsValued i e
      → All (IsValued i) hist
      → in_order (g.nodes tree) ≡ contents i hist
      → (tree' : g.Tree) × ((g.insert (mem_index_compare i) e e tree ≡ some tree')
          × (in_order (g.nodes tree') ≡ contents i (e ∷ hist)))
  grown i e tree hist h hs t =
      let sorted = contents-IsSorted i hist hs in
      let (tree', (q, n)) =
        g.insert_lem (rank_at i) (mem_index_compare i) e e tree
          (subst (λ es. Ascending (rank_at i) es) (sym t) sorted.1)
          (subst
            (λ es.
              All (λ k. mem_index_compare i e k.0 ≡ some (by_rank (rank_at i e) (rank_at i k.0)))
                es)
            (sym t) (contents-compare i e (contents i hist) h sorted.0)) in
      (tree', (q, n ∙ ap (put (rank_at i) e e) t))

  inserted :
      (e : AssocEntry) (f : FormatIndex g.Tree) (tree' : g.Tree)
      → g.insert (mem_index_compare f.offset) e e f.tree ≡ some tree'
      → insert_at g e f ≡ some (record f { tree = tree' })
  inserted e f tree' q = >>=-some _ q

  -- The trees after one more entry.
  formats_grow :
      (hist : List AssocEntry) (fs : List (FormatIndex g.Tree)) (address id : ℕ) (keyframe : Bool)
      (ts pos : ℕ)
      → ts < 2 ^ 63 - 1
      → pos < 2 ^ 63 - 1
      → All (Fits id) hist
      → TreesOf hist fs
      → (fs' : List (FormatIndex g.Tree)) × ((index_formats g
              (timed_entry address id keyframe ts pos)
              0
              (timed_entry address id keyframe ts pos).assocs
              fs
            ≡ some fs')
          × TreesOf (timed_entry address id keyframe ts pos ∷ hist) fs')
  unfolding index_formats index_format
  formats_grow [] fs address id keyframe ts pos ht hp h t =
      let entry = timed_entry address id keyframe ts pos in
      let none_yet : in_order (g.nodes g.empty) ≡ [] = ap in_order g.nodes-empty in
      let (times, (p, nt)) = grown 0 entry g.empty [] (refl, ht) tt none_yet in
      let (positions, (q, np)) = grown 1 entry g.empty [] (refl, hp) tt none_yet in
      (
        of_times times ∷ (of_positions positions ∷ []),
        (
          ap (index_formats g entry 0 entry.assocs) t
              ∙ >>=-some _ (>>=-some _ (inserted entry (of_times g.empty) times p))
              ∙ >>=-some _
                  (>>=-some _ (>>=-some _ (inserted entry (of_positions g.empty) positions q))),
          (times, (positions, (refl, (nt, np)))),
        ),
      )
  formats_grow (e ∷ es) fs address id keyframe ts pos ht hp h (times, (positions, (t, (nt, np)))) =
      let entry = timed_entry address id keyframe ts pos in
      let (times', (p, nt')) =
        grown 0 entry times (e ∷ es) (refl, ht) (All-map (e ∷ es) (λ a k. k.1.0.0) h) nt in
      let (positions', (q, np')) =
        grown 1 entry positions (e ∷ es) (refl, hp) (All-map (e ∷ es) (λ a k. k.1.0.1) h) np in
      (
        of_times times' ∷ (of_positions positions' ∷ []),
        (
          ap (index_formats g entry 0 entry.assocs) t
              ∙ >>=-some _ (>>=-some _ (inserted entry (of_times times) times' p))
              ∙ >>=-some _
                  (>>=-some _ (>>=-some _ (inserted entry (of_positions positions) positions' q))),
          (times', (positions', (refl, (nt', np')))),
        ),
      )

  -- In a memory index of one writer, filled from its creation with entries that have a time and
  -- then a position, both below 2 ^ 63 - 1: another such entry is added without a fault, is the
  -- first of the associations, and keeps the invariant: a tree of the times and one of the
  -- positions hold all that was added, in their order.
  pub add_association-IsIndexOf :
      (mem : MemIndex g.Tree) (address id : ℕ) (keyframe : Bool) (ts pos : ℕ)
      → ts < 2 ^ 63 - 1
      → pos < 2 ^ 63 - 1
      → IsIndexOf id mem
      → (mem' : MemIndex g.Tree) × ((add_association g (timed_entry address id keyframe ts pos) mem
            ≡ some mem')
          × (IsIndexOf id mem'
              × (mem'.associations ≡ timed_entry address id keyframe ts pos ∷ mem.associations)))
  unfolding add_association index_writer entry_assoc_map
  add_association-IsIndexOf mem address id keyframe ts pos ht hp h =
      let entry = timed_entry address id keyframe ts pos in
      let (fs', (e, t)) =
        formats_grow mem.associations h.fs address id keyframe ts pos ht hp h.fits h.trees in
      let ws : List (WriterIndex g.Tree) = record { id = id; format_index = fs' } ∷ [] in
      let w : index_writer g entry mem.id_index ≡ some ws =
        ap (index_writer g entry) h.writer ∙ rw (index_writer, ==_refl id) (>>=-some _ e) in
      (
        record { associations = entry ∷ mem.associations; id_index = ws },
        (
          >>=-some _ w,
          (
            record {
              fits = ((refl, (((refl, ht), (refl, hp)), (keyframe, (refl, (refl, refl))))), h.fits);
              fs = fs';
              writer = refl;
              trees = t;
            },
            refl,
          ),
        ),
      )

  -- The tree of a format, where something was added.
  pub find_writer :
      (id : ℕ) (mem : MemIndex g.Tree) (h : IsIndexOf id mem)
      → find_id g id mem.id_index ≡ some (record { id = id; format_index = h.fs })
  find_writer id mem h = ap (find_id g id) h.writer ∙ rw (find_id, ==_refl id) refl
