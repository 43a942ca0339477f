-- ===== src/Index/Memory/Search.antt =====
-- What a search in the tree of a format finds (mem_index_search).
use ubox_publisher.Common.{
  ℕ, ◌-◌, ◌^◌, ◌<◌, ◌≡◌, refl, ap, ◌∙◌, Bool, true, false, none, some, if◌then◌else◌, sub64, arith,
}
use ubox_publisher.Common.Options.{>>=-some}
use ubox_publisher.Index.Entry.{AssocEntry, value_at}
use ubox_publisher.Index.Trees.{Sign, negative, null, positive, Nodes, node, search_nodes}
use ubox_publisher.Index.Memory.{
  SearchData, sign_of, note_lower, note_higher, note, mem_index_search,
}

-- The value at a place, 0 where there is none.
abbrev pub val : ℕ → AssocEntry → ℕ
val i e = elim (value_at i e) [ none ↦ 0 | some v ↦ v ]

-- There is a value, which is not negative, and not the greatest gint64.
abbrev pub IsValued : ℕ → AssocEntry → Type 0
IsValued i e = (value_at i e ≡ some (val i e)) × (val i e < 2 ^ 63 - 1)

abbrev pub rank_at : ℕ → AssocEntry → ℕ
rank_at i e = 2 ^ 63 - val i e

sign_same : (a b : ℕ) → a ≡ b → b < 2 ^ 63 → sign_of (sub64 a b) ≡ null
sign_same a b e h = ground arith

pub sign_below : (a b : ℕ) → a < b → b < 2 ^ 63 → sign_of (sub64 a b) ≡ negative
sign_below a b l h = ground arith

pub sign_above : (a b : ℕ) → b < a → a < 2 ^ 63 - 1 → sign_of (sub64 a b) ≡ positive
sign_above a b l h = ground arith

-- What a step below and a step above leave.
abbrev pub lowered : AssocEntry → SearchData → SearchData
lowered k s = if s.exact then s else note_lower k (sub64 (val s.offset k) s.value) s

abbrev pub raised : AssocEntry → SearchData → SearchData
raised k s = if s.exact then s else note_higher k (sub64 (val s.offset k) s.value) s

if_pair :
    (b : Bool) (g : Sign) (x y : SearchData)
    → ◌≡◌ {A = Sign × SearchData} (if b then (g, x) else (g, y)) (g, if b then x else y)
if_pair true g x y = refl
if_pair false g x y = refl

noted :
    (k : AssocEntry) (s : SearchData) (g : Sign)
    → IsValued s.offset k
    → sign_of (sub64 (val s.offset k) s.value) ≡ g
    → mem_index_search k s
      ≡ some (if s.exact then (g, s) else note k (sub64 (val s.offset k) s.value) g s)
unfolding mem_index_search
noted k s g (e, h) t =
    >>=-some _ e
    ∙ ap (λ g. some (if s.exact then (g, s) else note k (sub64 (val s.offset k) s.value) g s)) t

if_same : {A : Type 0} (b : Bool) (x : A) → (if b then x else x) ≡ x
if_same true x = refl
if_same false x = refl

pub search_same :
    (k w : AssocEntry) (l r : Nodes AssocEntry) (s : SearchData)
    → IsValued s.offset k
    → s.value < 2 ^ 63
    → val s.offset k ≡ s.value
    → search_nodes mem_index_search s (node l k w r) ≡ some (some w, s)
unfolding search_nodes
search_same k w l r s h b e =
    >>=-some _ (noted k s null h (sign_same _ _ e b) ∙ ap some (if_same s.exact (null, s)))

pub search_below :
    (k w : AssocEntry) (l r : Nodes AssocEntry) (s : SearchData)
    → IsValued s.offset k
    → s.value < 2 ^ 63
    → val s.offset k < s.value
    → search_nodes mem_index_search s (node l k w r) ≡ search_nodes mem_index_search (lowered k s) l
unfolding search_nodes
search_below k w l r s h b e =
    >>=-some _ (noted k s negative h (sign_below _ _ e b) ∙ ap some (if_pair s.exact negative _ _))

pub search_above :
    (k w : AssocEntry) (l r : Nodes AssocEntry) (s : SearchData)
    → IsValued s.offset k
    → s.value < val s.offset k
    → search_nodes mem_index_search s (node l k w r) ≡ search_nodes mem_index_search (raised k s) r
unfolding search_nodes
search_above k w l r s h e =
    >>=-some _
      (noted k s positive h (sign_above _ _ e h.1) ∙ ap some (if_pair s.exact positive _ _))
