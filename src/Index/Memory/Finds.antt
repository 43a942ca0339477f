-- ===== src/Index/Memory/Finds.antt =====
-- gst_mem_index_get_assoc_entry's search in the tree of a format.
use ubox_publisher.Common.{ℕ, ◌^◌, ◌<◌, ◌≡◌, refl, sym, ◌∙◌, subst, Option, none, some, List, All}
use ubox_publisher.Common.Options.{>>=-some}
use ubox_publisher.Index.Entry.{
  LookupMethod, lookup_exact, lookup_before, lookup_after, is_exact, AssocEntry,
}
use ubox_publisher.Index.Trees.{Trees, in_order, search_nodes}
use ubox_publisher.Index.Memory.{
  SearchData, FormatIndex, mem_index_search, search_data, found_or_near, search_format,
}
use ubox_publisher.Index.Memory.Search.{IsValued}
use ubox_publisher.Index.Memory.Found.{IsSorted, Hits, Asks, search-Hits}
use ubox_publisher.Index.Memory.Lower.{Lowers, search_lower}
use ubox_publisher.Index.Memory.Higher.{Highers, search_higher}
use ubox_publisher.Index.Memory.Contents.{contents, contents-IsSorted}
use ubox_publisher.Index.Memory.Lookup.{
  Finds, hit_latest, begins-IsBelow, begins-IsAbove, latest-IsBefore, latest-IsAfter,
  lower-IsBefore, higher-IsAfter,
}

module _ (g : Trees AssocEntry) (x : ℕ) (f : FormatIndex g.Tree) (hist : List AssocEntry)
    (b : x < 2 ^ 63) (h : All (IsValued f.offset) hist)
    (t : in_order (g.nodes f.tree) ≡ contents f.offset hist) where
  begun : LookupMethod → SearchData
  begun method = search_data method f.offset x

  begun-Asks : (method : LookupMethod) → Asks f.offset x (is_exact method) (begun method)
  unfolding begun search_data
  begun-Asks method = (refl, (refl, refl))

  sorted : IsSorted f.offset (in_order (g.nodes f.tree))
  sorted = subst (IsSorted f.offset) (sym t) (contents-IsSorted f.offset hist h)

  searched :
      (method : LookupMethod)
      → (r : Option AssocEntry) × ((s : SearchData) × ((search_nodes mem_index_search
                (begun method)
                (g.nodes f.tree)
              ≡ some (r, s))
            × Hits f.offset x (contents f.offset hist) r))
  searched method =
      let (r, (s, (e, hit))) =
        search-Hits f.offset x (is_exact method) (g.nodes f.tree) (begun method) (begun-Asks method)
          b sorted in
      (r, (s, (e, subst (λ es. Hits f.offset x es r) t hit)))

  finds :
      (method : LookupMethod) (r : Option AssocEntry) (s : SearchData)
      → search_nodes mem_index_search (begun method) (g.nodes f.tree) ≡ some (r, s)
      → Hits f.offset x (contents f.offset hist) r
      → Finds f.offset x method hist (found_or_near method r s)
  unfolding begun search_data
  finds lookup_exact none s e hit = hit_latest f.offset x hist none h hit
  finds lookup_exact (some w) s e hit = hit_latest f.offset x hist (some w) h hit
  finds lookup_before (some w) s e hit =
      latest-IsBefore f.offset x hist w (sym (hit_latest f.offset x hist (some w) h hit))
  finds lookup_after (some w) s e hit =
      latest-IsAfter f.offset x hist w (sym (hit_latest f.offset x hist (some w) h hit))
  finds lookup_before none s e hit = lower-IsBefore f.offset x hist s.lower h hit (
      subst (λ es. Lowers f.offset x es none (some (none, s))) t
        (subst (Lowers f.offset x (in_order (g.nodes f.tree)) none) e (
          search_lower f.offset x (g.nodes f.tree) (begun lookup_before) (begun-Asks lookup_before)
            b sorted (begins-IsBelow f.offset x _ b))))
  finds lookup_after none s e hit = higher-IsAfter f.offset x hist s.higher h hit (
      subst (λ es. Highers f.offset x es none (some (none, s))) t
        (subst (Highers f.offset x (in_order (g.nodes f.tree)) none) e (
          search_higher f.offset x (g.nodes f.tree) (begun lookup_after) (begun-Asks lookup_after) b
            sorted (begins-IsAbove f.offset x _ sorted.0))))

  -- The search never fails, and finds what the method asks for among all entries that were added.
  pub search_format-Finds :
      (method : LookupMethod)
      → (r : Option AssocEntry) × ((search_format g method x f ≡ some r)
          × Finds f.offset x method hist r)
  unfolding search_format begun
  search_format-Finds method =
      let (r, (s, (e, hit))) = searched method in
      (
        found_or_near method r s,
        (
          >>=-some _ (g.search_lem mem_index_search (begun method) f.tree ∙ e),
          finds method r s e hit,
        ),
      )
