-- ===== src/Index/Memory/KeyUnits.antt =====
-- gst_mem_index_get_assoc_entry's walk over the list to an entry with the flags.
use ubox_publisher.Common.{
  ℕ, ◌^◌, ◌≤◌, ◌<◌, ◌≡◌, ◌≢◌, refl, sym, ap, ◌∙◌, Bool, true, false, ◌&&◌, Option, none, some, List,
  [], ◌∷◌, inl, inr, All, Any, All-map, Any-map, Any-with, All-with, Any-rest, All-member, ==_iff,
  arith, ◌==◌, if◌then◌else◌, Bool-cases,
}
use mathlib.Core.Bool.{true≢false}
use ubox_publisher.Index.Entry.{lookup_before, AssocEntry, has_flags}
use ubox_publisher.Index.Trees.{Trees}
use ubox_publisher.Index.Memory.{MemIndex, with_flags, walk, walk_from, list_find, get_assoc_entry}
use ubox_publisher.Index.Memory.Search.{val}
use ubox_publisher.Index.Memory.Lookup.{IsBefore}
use ubox_publisher.Index.Memory.Keeps.{IsIndexOf}
use ubox_publisher.Index.Memory.Queries.{place_of, format_of, get_assoc_entry_known, looked_up}

-- Blocks that are in use at once have different addresses.
abbrev pub IsDistinct : List AssocEntry → Type 0
IsDistinct [] = Unit {0}
IsDistinct (e ∷ es) = All (λ d. d.address ≢ e.address) es × IsDistinct es

module _ (i : ℕ) where
  -- Each entry has a greater value than those that were added before it.
  abbrev pub IsInOrder : List AssocEntry → Type 0
  IsInOrder [] = Unit {0}
  IsInOrder (e ∷ es) = All (λ d. val i d < val i e) es × IsInOrder es

  -- An entry with the flags that is at most `x`; no other one that is and has them is above it.
  abbrev pub IsLast : ℕ → ℕ → List AssocEntry → AssocEntry → Type 0
  IsLast flags x hist j =
      Any (λ e. e ≡ j) hist
      × (((has_flags flags j ≡ true) × (val i j ≤ x))
          × All (λ e. has_flags flags e ≡ true → val i e ≤ x → val i e ≤ val i j) hist)

  walk-IsLast :
      (id flags x : ℕ) (last : Option AssocEntry) (at : List AssocEntry)
      → All (λ e. e.id ≡ id) at
      → All (λ e. val i e ≤ x) at
      → IsInOrder at
      → Any (λ e. has_flags flags e ≡ true) at
      → (j : AssocEntry) × ((walk id flags last at ≡ some j) × IsLast flags x at j)
  unfolding walk
  walk-IsLast id flags x last [] h m o a = absurd a.1
  walk-IsLast id flags x last (e ∷ es) (h, hs) (m, ms) (o, os) a =
      let mine : (e.id == id) ≡ true = ground arith in
      elim (Bool-cases (has_flags flags e)) [
        | inl f ↦ (
          e,
          (
            ap (λ b. elim b [ true ↦ some e | false ↦ walk id flags (some e) es ])
                (ap (λ b. b && has_flags flags e) mine ∙ f),
            (inl refl, ((f, m), ((λ g l. omega arith), All-map es (λ d l g m. omega arith) o))),
          ),
        )
        | inr f ↦
            let rest : Any (λ e. has_flags flags e ≡ true) es =
              Any-rest _ e es (λ t. absurd (true≢false (sym t ∙ f))) a in
            let (j, (q, (at, (g, all)))) = walk-IsLast id flags x (some e) es hs ms os rest in
            (
              j,
              (
                ap (λ b. elim b [ true ↦ some e | false ↦ walk id flags (some e) es ])
                      (ap (λ b. b && has_flags flags e) mine ∙ f)
                    ∙ q,
                (inr at, (g, ((λ t. absurd (true≢false (sym t ∙ f))), all))),
              ),
            )
      ]

  -- From the entry `k` on.
  walk_from-IsLast :
      (id flags : ℕ) (k : AssocEntry) (seen hist : List AssocEntry)
      → All (λ e. e.id ≡ id) hist
      → IsInOrder hist
      → IsDistinct hist
      → Any (λ e. e ≡ k) hist
      → Any (λ e. (has_flags flags e ≡ true) × (val i e ≤ val i k)) hist
      → (j : AssocEntry) × ((walk_from id lookup_before flags (list_find k.address seen hist)
            ≡ some j)
          × IsLast flags (val i k) hist j)
  walk_from-IsLast id flags k seen [] h o d n a = absurd n.1
  walk_from-IsLast id flags k seen (e ∷ es) (h, hs) (o, os) (d, ds) n a =
      elim (Bool-cases (e.address == k.address)) [
        | inl q ↦
            let first : val i e ≡ val i k = elim n [
              | inl c ↦ ap (val i) c
              | inr m ↦ absurd (
                  All-member (λ d. d.address ≢ e.address) k es m d
                    (sym ((==_iff e.address k.address).0 q)))
            ] in
            let (j, (w, last)) =
              walk-IsLast id flags (val i k) none (e ∷ es) (h, hs)
                (omega arith, All-map es (λ d l. omega arith) o) (o, os)
                (Any-map (e ∷ es) (λ x y. y.0) a) in
            (
              j,
              (
                ap
                      (λ b. walk_from id lookup_before flags (elim b [
                        | true ↦ some (seen, e ∷ es)
                        | false ↦ list_find k.address (e ∷ seen) es
                      ]))
                      q
                    ∙ w,
                last,
              ),
            )
        | inr q ↦
            let later : Any (λ e. e ≡ k) es =
              Any-rest _ e es
                (λ c. true≢false (sym ((==_iff e.address k.address).1 (ap (λ x. x.address) c)) ∙ q))
                n in
            let less : val i k < val i e = All-member (λ d. val i d < val i e) k es later o in
            let (j, (w, (at, (g, all)))) =
              walk_from-IsLast id flags k (e ∷ seen) es hs os ds later
                (Any-rest _ e es (λ c. absurd (omega (arith, c.1))) a) in
            (
              j,
              (
                ap
                      (λ b. walk_from id lookup_before flags (elim b [
                        | true ↦ some (seen, e ∷ es)
                        | false ↦ list_find k.address (e ∷ seen) es
                      ]))
                      q
                    ∙ w,
                (inr at, (g, ((λ t l. absurd (omega arith)), all))),
              ),
            )
      ]

  with_flags-IsLast :
      (id flags : ℕ) (k : AssocEntry) (hist : List AssocEntry)
      → All (λ e. e.id ≡ id) hist
      → IsInOrder hist
      → IsDistinct hist
      → Any (λ e. e ≡ k) hist
      → Any (λ e. (has_flags flags e ≡ true) × (val i e ≤ val i k)) hist
      → (j : AssocEntry) × ((with_flags id lookup_before flags hist (some k) ≡ some j)
          × IsLast flags (val i k) hist j)
  unfolding with_flags
  with_flags-IsLast id flags k hist h o d n a = elim (Bool-cases (has_flags flags k)) [
    | inl f ↦ (
      k,
      (
        ap
            (λ b.
              if b then some k else walk_from id lookup_before flags (list_find k.address [] hist))
            f,
        (n, ((f, omega arith), All-map hist (λ e x t l. l) h)),
      ),
    )
    | inr f ↦
        let (j, (w, last)) = walk_from-IsLast id flags k [] hist h o d n a in
        (
          j,
          (
            ap
                  (λ b.
                    if b
                    then some k
                    else walk_from id lookup_before flags (list_find k.address [] hist))
                  f
                ∙ w,
            last,
          ),
        )
  ]

found-IsLast :
    (id flags i x : ℕ) (hist : List AssocEntry) (r : Option AssocEntry)
    → All (λ e. e.id ≡ id) hist
    → IsInOrder i hist
    → IsDistinct hist
    → Any (λ e. (has_flags flags e ≡ true) × (val i e ≤ x)) hist
    → IsBefore i x hist r
    → (j : AssocEntry) × ((with_flags id lookup_before flags hist r ≡ some j)
        × IsLast i flags x hist j)
found-IsLast id flags i x hist none h o d a above = absurd (nowhere hist above a)
  where
    nowhere :
        (es : List AssocEntry)
        → All (λ e. x < val i e) es
        → Any (λ e. (has_flags flags e ≡ true) × (val i e ≤ x)) es
        → ⊥
    nowhere [] h k = k.1
    nowhere (e ∷ es) (b, h) (inl k) = absurd (omega (arith, k.1))
    nowhere (e ∷ es) (b, h) (inr k) = nowhere es h k
found-IsLast id flags i x hist (some k) h o d a (n, (l, most)) =
    let (j, (w, (at, ((f, b), all)))) =
      with_flags-IsLast i id flags k hist h o d n (Any-with hist (λ e m t. (t.0, m t.1)) most a) in
    (j, (w, (at, ((f, omega arith), All-with hist (λ e m t g y. t g (m y)) most all))))

module _ (g : Trees AssocEntry) where
  -- In a memory index of one writer, filled from its creation with entries that have a time and
  -- then a position, both below 2 ^ 63 - 1, which were added in the order of their times or
  -- positions and have different addresses: a lookup before a value below 2 ^ 63 with flags finds,
  -- if some entry at or before it has the flags, the one of these with the greatest value.
  pub get_assoc_entry-IsLast :
      (id flags : ℕ) (by_time : Bool) (x : ℕ) (mem : MemIndex g.Tree)
      → x < 2 ^ 63
      → IsIndexOf g id mem
      → IsInOrder (place_of by_time) mem.associations
      → IsDistinct mem.associations
      → Any (λ e. (has_flags flags e ≡ true) × (val (place_of by_time) e ≤ x)) mem.associations
      → (j : AssocEntry) × ((get_assoc_entry g id lookup_before flags (format_of by_time) x mem
            ≡ some (some j))
          × IsLast (place_of by_time) flags x mem.associations j)
  get_assoc_entry-IsLast id flags by_time x mem b h o d a =
      let i = place_of by_time in
      let hist = mem.associations in
      let (r, (q, found)) =
        looked_up g id lookup_before flags by_time x hist h.fs b h.fits h.trees in
      let (j, (w, last)) =
        found-IsLast id flags i x hist r (All-map hist (λ e k. k.0) h.fits) o d a found in
      (j, (get_assoc_entry_known g id lookup_before flags by_time x mem h ∙ q ∙ ap some w, last))
