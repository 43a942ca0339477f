-- ===== src/Index/Writers.antt =====
-- The ids that gst_index_get_writer_id gives to writers.
use ubox_publisher.Common.{
  ℕ, ◌+◌, ◌-◌, ◌^◌, ◌≤◌, ◌<◌, ◌≡◌, ◌≢◌, refl, sym, ap, ◌∙◌, subst, Bool, true, false, not, ◌||◌,
  Option, none, some, List, [], ◌∷◌, inl, inr, All, arith, ◌==◌, ==_refl, if◌then◌else◌, u32,
  Bool-cases,
}
use mathlib.Core.Option.{some-injective}
use ubox_publisher.Common.Memory.{Bytes}
use ubox_publisher.Common.Options.{>>=-some}
use ubox_publisher.Index.Entry.{AssocEntry, id_entry, invalid_id}
use ubox_publisher.Index.Trees.{Trees}
use ubox_publisher.Index.Memory
use ubox_publisher.Index.Objects.{
  Objects, Index, Resolver, resolve, add_entry, add_id, cached, new_writer, get_writer_id,
}

abbrev pub Writer : Type 0
Writer = ℕ × (ℕ × Bytes)

-- The ids are at most `n`, and each is above those that were given before.
abbrev pub AreNumbered : ℕ → List Writer → Type 0
AreNumbered n [] = Unit {0}
AreNumbered n ((w, (id, s)) ∷ ws) = (id ≤ n) × (All (λ v. v.1.0 < id) ws × AreNumbered n ws)

AreNumbered-le : (n m : ℕ) (ws : List Writer) → n ≤ m → AreNumbered n ws → AreNumbered m ws
AreNumbered-le n m [] l h = tt
AreNumbered-le n m ((w, (id, s)) ∷ ws) l (a, (b, h)) = (omega arith, (b, AreNumbered-le n m ws l h))

all_below : (n : ℕ) (ws : List Writer) → AreNumbered n ws → All (λ v. v.1.0 < n + 1) ws
all_below n [] h = tt
all_below n ((w, (id, s)) ∷ ws) (a, (b, h)) = (omega arith, all_below n ws h)

module _ (g : Trees AssocEntry) where
  -- An index was made, with the writers, the last id and the resolver of another.
  abbrev pub Keeps : Index g.Tree → Option (Bool × Index g.Tree) → Type 0
  Keeps index o =
      (b : Bool) × ((index' : Index g.Tree) × ((o ≡ some (b, index'))
          × ((index'.writers ≡ index.writers)
              × ((index'.last_id ≡ index.last_id) × (index'.resolver ≡ index.resolver)))))

  if_Keeps :
      (index : Index g.Tree) (b : Bool) (x y : Option (Bool × Index g.Tree))
      → Keeps index x
      → Keeps index y
      → Keeps index (if b then x else y)
  if_Keeps index true x y hx hy = hx
  if_Keeps index false x y hx hy = hy

  add_id-Keeps : (id : ℕ) (s : Bytes) (index : Index g.Tree) → Keeps index (add_id g id s index)
  unfolding add_id add_entry Memory.add_entry
  add_id-Keeps id s index =
      if_Keeps index (not index.writable || (id == invalid_id)) _ _
        (false, (index, (refl, (refl, (refl, refl)))))
        (
          true,
          (
            record index {
              memory = Memory.add_id g id index.memory;
              added = id_entry id s ∷ index.added;
            },
            (refl, (refl, (refl, refl))),
          ),
        )

  cached_in :
      (P : ℕ → Type 0) (w : ℕ) (entry : ℕ × Bytes) (ws : List Writer)
      → cached g w ws ≡ some entry
      → All (λ v. P v.1.0) ws
      → P entry.0
  cached_in P w entry [] q h = cc
  cached_in P w entry ((v, e) ∷ ws) q (a, h) =
      let pick = λ (b : Bool). (elim b as (λ x. Option (ℕ × Bytes)) [
        | true ↦ some e
        | false ↦ cached g w ws
      ]) in
      elim (Bool-cases (v == w)) [
        | inl c ↦ subst (λ e. P e.0) (some-injective e entry (sym (ap pick c) ∙ q)) a
        | inr c ↦ cached_in P w entry ws (sym (ap pick c) ∙ q) h
      ]

  get_uncached :
      (objects : Objects) (writer : ℕ) (resolver : Resolver) (index : Index g.Tree)
      → index.resolver ≡ some resolver
      → cached g writer index.writers ≡ none
      → get_writer_id g objects writer index
        ≡ new_writer g writer (resolve objects resolver writer) index
  unfolding get_writer_id
  get_uncached objects writer resolver index r m =
      rw (get_writer_id, m)
        (ap
          (λ o. elim o as (λ x. Option ((Bool × ℕ) × Index g.Tree)) [
            | none ↦ some ((false, invalid_id), index)
            | some known ↦ new_writer g writer (resolve objects known writer) index
          ])
          r)

  get_cached :
      (objects : Objects) (writer : ℕ) (entry : ℕ × Bytes) (index : Index g.Tree)
      → cached g writer index.writers ≡ some entry
      → get_writer_id g objects writer index ≡ some ((true, entry.0), index)
  unfolding get_writer_id
  get_cached objects writer entry index m = rw (get_writer_id, m) refl

  -- The last id is of 31 bits, and the cached ids are numbered up to it.
  abbrev pub IsNumbered : Index g.Tree → Type 0
  IsNumbered index = (index.last_id < 2 ^ 31) × AreNumbered index.last_id index.writers

  -- In an index with a resolver, whose last id is below 2 ^ 31 - 1 and at least those of the known
  -- writers, which are numbered: a writer that gst_index_get_writer_id does not know gets an id
  -- that no known writer has, the ids stay numbered, and the same id is found the next time.
  pub get_writer_id_new :
      (objects : Objects) (writer : ℕ) (resolver : Resolver) (index : Index g.Tree)
      → IsNumbered index
      → index.last_id < 2 ^ 31 - 1
      → index.resolver ≡ some resolver
      → cached g writer index.writers ≡ none
      → (id : ℕ) × ((index' : Index g.Tree) × ((get_writer_id g objects writer index
              ≡ some ((true, id), index'))
            × (IsNumbered index'
                × ((get_writer_id g objects writer index' ≡ some ((true, id), index'))
                    × ((other : ℕ) (entry : ℕ × Bytes)
                        → cached g other index.writers ≡ some entry
                        → entry.0 ≢ id)))))
  unfolding new_writer
  get_writer_id_new objects writer resolver index (b, n) l r m =
      let s = resolve objects resolver writer in
      let id = u32 (index.last_id + 1) in
      let numbered : id ≡ index.last_id + 1 = omega arith in
      let (made, (next, (q, (ws, (last, _))))) =
        add_id-Keeps id s (record index { last_id = id }) in
      let done : Index g.Tree = record next { writers = (writer, (id, s)) ∷ next.writers } in
      let below = all_below index.last_id index.writers n in
      (
        id,
        (
          done,
          (
            get_uncached objects writer resolver index r m ∙ >>=-some _ q,
            (
              (
                omega (arith, numbered, last),
                (
                  omega (arith, last),
                  (
                    subst (All (λ v. v.1.0 < id)) (sym ws)
                        (subst (λ n. All (λ v. v.1.0 < n) index.writers) (sym numbered) below),
                    subst (AreNumbered next.last_id) (sym ws) (
                        AreNumbered-le index.last_id next.last_id index.writers
                          (omega (arith, numbered, last)) n),
                  ),
                ),
              ),
              (
                get_cached objects writer (id, s) done (rw (cached, ==_refl writer) refl),
                λ other entry c e.
                    let less =
                      cached_in (λ n. n < index.last_id + 1) other entry index.writers c below in
                    omega (arith, less, numbered, e),
              ),
            ),
          ),
        ),
      )
