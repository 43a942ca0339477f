-- ===== src/Demux/Script/Total.antt =====
-- Reading items ends: an item takes three bytes at least from the reader.
use ubox_publisher.Common.{
  ℕ, zero, suc, ◌+◌, ◌≤◌, ◌≡◌, refl, ap, ◌∙◌, true, false, Option, none, some, length, arith,
}
use ubox_publisher.Common.Memory.{Bytes}
use ubox_publisher.Common.Options.{◌>>=◌}
use ubox_publisher.Gst.Platform.{Platform}
use ubox_publisher.Demux.Env.{Env}
use ubox_publisher.Demux.Send.{State}
use ubox_publisher.Demux.Script.{
  ValueKind, number, boolean, string, object, ecma_array, end_marker, array, date, unsupported,
  Item, failed, parsed, get_string, as_value, parse_object, parse_value, parse_typed, parse_named,
  continue, parse_items, Loop, kind_of,
}
use ubox_publisher.Demux.Script.Lengths.{
  Shorter, LeavesLess, weaken, uint8_less, get_string_less, uint32_less, parse_flat-Shorter,
}

module _ (p : Platform) (e : Env p) where
  open e use {readers}

  -- The loop `loop` returns where at least `k` fewer than `n` bytes are left.
  abbrev Reads : Option (Item (State p e)) → ℕ → ℕ → Type 0
  Reads o k n = (i : Item (State p e)) × (o ≡ some i) × Shorter k n i

  abbrev Total : Loop p e → ℕ → ℕ → Type 0
  Total loop k n =
      (bs : Bytes) (demux : State p e) → length bs + k ≤ n → Reads (loop bs demux) 0 (length bs)

  as_value-Shorter : (n : ℕ) (i : Item (State p e)) → Shorter 0 n i → Shorter 0 n (as_value p e i)
  as_value-Shorter n (failed demux) s = tt
  as_value-Shorter n (parsed m rest demux) s = s

  parse_object-Reads :
      (loop : Loop p e) (n : ℕ) (o : Option Bytes) (demux : State p e)
      → Total loop 0 n
      → LeavesLess 0 n (do bs ← o; some (tt, bs))
      → Reads (parse_object p e loop o demux) 0 n
  unfolding parse_object
  parse_object-Reads loop n none demux total h = (failed demux, refl, tt)
  parse_object-Reads loop n (some bs) demux total h =
      let (i, q, s) = total bs demux (omega arith) in
      (
        as_value p e i,
        ap (λ o. do i ← o; some (as_value p e i)) q,
        as_value-Shorter n i (weaken 0 0 (length bs) n i (omega arith) s),
      )

  ecma_less :
      (bs : Bytes)
      → LeavesLess 0
          (length bs)
          (do bs ← (do (n, rest) ← readers.get_uint32_be bs; some rest); some (tt {0}, bs))
  ecma_less bs = go (readers.get_uint32_be bs) (uint32_less p e bs)
    where
      go :
          (o : Option (ℕ × Bytes))
          → LeavesLess 4 (length bs) o
          → LeavesLess 0 (length bs) (do bs ← (do (n, rest) ← o; some rest); some (tt {0}, bs))
      go none h = tt
      go (some (n, rest)) h = omega arith

  parse_value-Reads :
      (loop : Loop p e) (kind : ValueKind) (name bs : Bytes) (demux : State p e)
      → Total loop 0 (length bs)
      → Reads (parse_value p e loop kind name bs demux) 0 (length bs)
  unfolding parse_value
  parse_value-Reads loop object name bs demux total =
      parse_object-Reads loop (length bs) (some bs) demux total (omega arith)
  parse_value-Reads loop ecma_array name bs demux total =
      parse_object-Reads loop (length bs) _ demux total (ecma_less bs)
  parse_value-Reads loop number name bs demux total =
      (_, refl, parse_flat-Shorter p e number name bs demux)
  parse_value-Reads loop boolean name bs demux total =
      (_, refl, parse_flat-Shorter p e boolean name bs demux)
  parse_value-Reads loop string name bs demux total =
      (_, refl, parse_flat-Shorter p e string name bs demux)
  parse_value-Reads loop array name bs demux total =
      (_, refl, parse_flat-Shorter p e array name bs demux)
  parse_value-Reads loop date name bs demux total =
      (_, refl, parse_flat-Shorter p e date name bs demux)
  parse_value-Reads loop end_marker name bs demux total =
      (_, refl, parse_flat-Shorter p e end_marker name bs demux)
  parse_value-Reads loop unsupported name bs demux total =
      (_, refl, parse_flat-Shorter p e unsupported name bs demux)

  Total-below : (loop : Loop p e) (k n j m : ℕ) → m + k ≤ n + j → Total loop k n → Total loop j m
  Total-below loop k n j m h total bs demux hb = total bs demux (omega arith)

  parse_typed-Reads :
      (loop : Loop p e) (n : ℕ) (name : Bytes) (o : Option (ℕ × Bytes)) (demux : State p e)
      → Total loop 1 n
      → LeavesLess 1 n o
      → Reads (parse_typed p e loop name o demux) 1 n
  parse_typed-Reads loop n name none demux total h = (failed demux, refl, tt)
  parse_typed-Reads loop n name (some (type, rest)) demux total h =
      let (i, q, s) =
        parse_value-Reads loop (kind_of type) name rest demux
          (Total-below loop 1 n 0 (length rest) (omega arith) total) in
      (i, q, weaken 0 1 (length rest) n i (omega arith) s)

  parse_named-Reads :
      (loop : Loop p e) (n : ℕ) (o : Option (Bytes × Bytes)) (demux : State p e)
      → Total loop 3 n
      → LeavesLess 2 n o
      → Reads (parse_named p e loop o demux) 3 n
  parse_named-Reads loop n none demux total h = (failed demux, refl, tt)
  parse_named-Reads loop n (some (name, rest)) demux total h =
      let (i, q, s) =
        parse_typed-Reads loop (length rest) name (readers.get_uint8 rest) demux
          (Total-below loop 3 n 1 (length rest) (omega arith) total) (uint8_less p e rest) in
      (i, q, weaken 1 3 (length rest) n i (omega arith) s)

  continue-Reads :
      (loop : Loop p e) (n : ℕ) (i : Item (State p e))
      → Total loop 3 n
      → Shorter 3 n i
      → Reads (continue p e loop (some i)) 0 n
  continue-Reads loop n (failed demux) total s = (failed demux, refl, tt)
  continue-Reads loop n (parsed true rest demux) total s =
      (parsed true rest demux, refl, omega arith)
  continue-Reads loop n (parsed false rest demux) total s =
      let (i, q, s') = total rest demux (omega arith) in
      (i, q, weaken 0 0 (length rest) n i (omega arith) s')

  -- Two units of fuel more than there are bytes are enough, however objects are nested.
  pub parse_items_total :
      (f : ℕ) (bs : Bytes) (demux : State p e)
      → length bs + 2 ≤ f
      → Reads (parse_items p e f bs demux) 0 (length bs)
  unfolding parse_items
  parse_items_total zero bs demux h = absurd (omega arith)
  parse_items_total (suc zero) bs demux h = absurd (omega arith)
  parse_items_total (suc (suc f)) bs demux h =
      let n = length bs in
      let inner : Total (parse_items p e f) 3 n =
        λ cs d hc. parse_items_total f cs d (omega arith) in
      let outer : Total (parse_items p e (suc f)) 3 n =
        λ cs d hc. parse_items_total (suc f) cs d (omega arith) in
      let (i, q, s) =
        parse_named-Reads (parse_items p e f) n (get_string p e bs) demux inner
          (get_string_less p e bs) in
      let (j, q', s') = continue-Reads (parse_items p e (suc f)) n i outer s in
      (j, ap (continue p e (parse_items p e (suc f))) q ∙ q', s')
