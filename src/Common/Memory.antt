-- ===== src/Common/Memory.antt =====
-- A heap block of a known size, and stores into it. `none` is a store outside of the block.
use ubox_publisher.Common.Tests.{leb, if◌then◌else◌, le→leb, Option-cases}
use ubox_publisher.Common.Lists.{length, take, drop, length-append, take-append, drop-append}
use ubox_publisher.Common.Lists.{length-take, length-drop, take-append-drop}
use Prim.Native.Nat.{ℕ, zero, suc, ◌+◌, ◌≤◌}
use Prim.Native.Char.{code}
use Prim.Native.String.{String}
use mathlib.Core.Path.{◌≡◌, refl, sym, ap, ◌∙◌, subst}
use mathlib.Core.List.{List, [], ◌∷◌, ◌++◌, append_assoc, append-nil}
use mathlib.Core.Logic.{inl, inr}
use mathlib.Core.Bool.{true}
use mathlib.Core.Option.{Option, none, some}
use native.Mathlib.Omega.{arith}

abbrev pub Bytes : Type 0
Bytes = List ℕ

-- An offset, and the bytes that go there.
abbrev pub Store : Type 0
Store = ℕ × Bytes

-- What memset leaves: `n` times the byte `c`.
unfoldable pub memset : ℕ → ℕ → Bytes
memset c zero = []
memset c (suc n) = c ∷ memset c n

pub length-memset : (c n : ℕ) → length (memset c n) ≡ n
unfolding memset
length-memset c zero = refl
length-memset c (suc n) = ap suc (length-memset c n)

-- The bytes of a text in ASCII.
abbrev pub codes : String → Bytes
codes String.[] = []
codes (String.◌∷◌ c s) = code c ∷ codes s

unfoldable pub store : ℕ → Bytes → Bytes → Option Bytes
store off bs buf =
    if leb (off + length bs) (length buf)
    then some (take off buf ++ (bs ++ drop (off + length bs) buf))
    else none

-- The `n` bytes at an offset; `none` is a load from outside of the block.
unfoldable pub load : ℕ → ℕ → Bytes → Option Bytes
load off n buf = if leb (off + n) (length buf) then some (take n (drop off buf)) else none

pub load-append :
    (off n : ℕ) (pre mid post : Bytes)
    → off ≡ length pre
    → n ≡ length mid
    → load off n (pre ++ (mid ++ post)) ≡ some mid
unfolding load
load-append off n pre mid post e h =
    let fits : leb (off + n) (length (pre ++ (mid ++ post))) ≡ true =
      le→leb _ _ (omega (arith, length-append pre (mid ++ post), length-append mid post)) in
    let at : drop off (pre ++ (mid ++ post)) ≡ mid ++ post = rw e (drop-append pre (mid ++ post)) in
    let front : take n (mid ++ post) ≡ mid = rw h (take-append mid post) in rw (fits, at, front)

-- The stores of a block, in program order.
unfoldable pub fill : List Store → Bytes → Option Bytes
fill [] buf = some buf
fill ((off, bs) ∷ ws) buf = elim (store off bs buf) [ none ↦ none | some buf' ↦ fill ws buf' ]

-- The stores follow one another without a gap from `off` on.
abbrev pub Follows : ℕ → List Store → Type 0
Follows off [] = Unit
Follows off ((o, bs) ∷ ws) = (o ≡ off) × Follows (off + length bs) ws

abbrev pub joined : List Store → Bytes
joined [] = []
joined ((o, bs) ∷ ws) = bs ++ joined ws

drop-append_add :
    (pre old post : Bytes) (n : ℕ)
    → n ≡ length pre + length old
    → drop n (pre ++ (old ++ post)) ≡ post
drop-append_add pre old post n e =
    rw (e, ← length-append pre old, ← append_assoc pre old post) (drop-append (pre ++ old) post)

-- A store over `old` inside a block replaces it and keeps what is around it.
pub store-append :
    (off : ℕ) (bs pre old post : Bytes)
    → off ≡ length pre
    → length old ≡ length bs
    → store off bs (pre ++ (old ++ post)) ≡ some (pre ++ (bs ++ post))
unfolding store
store-append off bs pre old post e h =
    let fits : leb (off + length bs) (length (pre ++ (old ++ post))) ≡ true =
      le→leb _ _ (omega (arith, length-append pre (old ++ post), length-append old post)) in
    let front : take off (pre ++ (old ++ post)) ≡ pre = rw e (take-append pre (old ++ post)) in
    let back : drop (off + length bs) (pre ++ (old ++ post)) ≡ post =
      drop-append_add pre old post (off + length bs) (omega arith) in
    rw (fits, front, back)

fill_step :
    (o : ℕ) (bs : Bytes) (ws : List Store) (a b : Bytes)
    → store o bs a ≡ some b
    → fill ((o, bs) ∷ ws) a ≡ fill ws b
unfolding fill
fill_step o bs ws a b e = ground arith

-- Stores that follow one another over `hole` replace it by what they hold, whatever it held.
pub fill-Follows :
    (ws : List Store) (off : ℕ) (pre hole post : Bytes)
    → off ≡ length pre
    → Follows off ws
    → length hole ≡ length (joined ws)
    → fill ws (pre ++ (hole ++ post)) ≡ some (pre ++ (joined ws ++ post))
unfolding fill
fill-Follows [] off pre [] post e f h = refl
fill-Follows [] off pre (x ∷ hole) post e f h = absurd (omega arith)
fill-Follows ((o, bs) ∷ ws) off pre hole post e (eo, f) h =
    let n : length bs ≤ length hole = omega (arith, length-append bs (joined ws)) in
    let old = take (length bs) hole in
    let rest = drop (length bs) hole in
    let whole : pre ++ (hole ++ post) ≡ pre ++ (old ++ (rest ++ post)) =
      ap (λ x. pre ++ x)
        (ap (λ x. x ++ post) (sym (take-append-drop (length bs) hole))
          ∙ append_assoc old rest post) in
    let one : store o bs (pre ++ (hole ++ post)) ≡ some (pre ++ (bs ++ (rest ++ post))) =
      rw whole
        (store-append o bs pre old (rest ++ post) (eo ∙ e) (length-take (length bs) hole n)) in
    let tail : fill ws ((pre ++ bs) ++ (rest ++ post)) ≡ some ((pre ++ bs) ++ (joined ws ++ post)) =
      fill-Follows ws (off + length bs) (pre ++ bs) rest post (omega (arith, length-append pre bs))
        f (omega (arith, length-drop (length bs) hole, length-append bs (joined ws))) in
    fill_step o bs ws _ _ one
    ∙ ap (fill ws) (sym (append_assoc pre bs (rest ++ post)))
    ∙ tail
    ∙ ap some (append_assoc pre bs (joined ws ++ post))
    ∙ ap (λ x. some (pre ++ x)) (sym (append_assoc bs (joined ws) post))

-- The whole of a fresh block.
pub fill-fresh :
    (ws : List Store) (block : Bytes)
    → Follows 0 ws
    → length block ≡ length (joined ws)
    → fill ws block ≡ some (joined ws)
fill-fresh ws block f h =
    let e = fill-Follows ws 0 [] block [] refl f h in
    rw (append-nil block, append-nil (joined ws)) at e

pub fill-append :
    (us ws : List Store) (a b : Bytes) → fill us a ≡ some b → fill (us ++ ws) a ≡ fill ws b
unfolding fill
fill-append [] ws a b e = ground arith
fill-append ((o, bs) ∷ us) ws a b e = elim (Option-cases (store o bs a)) [
  | inl n ↦ ground arith
  | inr (c, s) ↦
      fill_step o bs (us ++ ws) a c s ∙ fill-append us ws c b (sym (fill_step o bs us a c s) ∙ e)
]

pub joined-append : (us ws : List Store) → joined (us ++ ws) ≡ joined us ++ joined ws
joined-append [] ws = refl
joined-append ((o, bs) ∷ us) ws =
    ap (λ x. bs ++ x) (joined-append us ws) ∙ sym (append_assoc bs (joined us) (joined ws))

pub Follows-append :
    (us ws : List Store) (off n : ℕ)
    → Follows off us
    → n ≡ off + length (joined us)
    → Follows n ws
    → Follows off (us ++ ws)
Follows-append [] ws off n f e g = let e' : n ≡ off = omega arith in subst (λ x. Follows x ws) e' g
Follows-append ((o, bs) ∷ us) ws off n (eo, f) e g =
    (eo, Follows-append us ws (off + length bs) n f (omega (arith, length-append bs (joined us))) g)

-- A block that memset clears first, and whose stores then follow one another from its start.
pub fill_cleared :
    (ws : List Store) (zeros block : Bytes)
    → Follows 0 ws
    → length block ≡ length zeros
    → length zeros ≡ length (joined ws)
    → fill ((0, zeros) ∷ ws) block ≡ some (joined ws)
fill_cleared ws zeros block f e h =
    fill-append ((0, zeros) ∷ []) ws block zeros (
      fill-fresh ((0, zeros) ∷ []) block (refl, tt) (omega (arith, length-append zeros []))
      ∙ ap some (append-nil zeros))
    ∙ fill-fresh ws zeros f h

-- The same, for a fresh block whose contents are described otherwise.
pub fill_block :
    (ws : List Store) (block target : Bytes)
    → Follows 0 ws
    → joined ws ≡ target
    → length block ≡ length target
    → fill ws block ≡ some target
fill_block ws block target f e h =
    fill-fresh ws block f (h ∙ ap (λ (x : Bytes). length x) (sym e)) ∙ ap some e
