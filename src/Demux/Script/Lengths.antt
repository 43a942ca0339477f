-- ===== src/Demux/Script/Lengths.antt =====
-- How many bytes are left when a value of the metadata was read.
use ubox_publisher.Common.{
  ℕ, zero, suc, ◌+◌, ◌≤◌, Bool, true, false, Bool-cases, inl, inr, Option, none, some, ltb, leb,
  leb→le, ◌==◌, if◌then◌else◌, length, length-drop, arith,
}
use ubox_publisher.Common.Memory.{Bytes}
use ubox_publisher.Common.Options.{◌>>=◌}
use ubox_publisher.Gst.Platform.{Platform}
use ubox_publisher.Gst.Readers.{taken, byte_of}
use ubox_publisher.Demux.Env.{Env}
use ubox_publisher.Demux.Send.{State}
use ubox_publisher.Demux.Script.{
  ValueKind, number, boolean, string, object, ecma_array, end_marker, array, date, unsupported,
  Item, failed, parsed, or_fail, get_string, parse_elements, parse_flat, add_element, start_array,
}

-- An item that was read leaves at least `k` fewer than `n` bytes.
abbrev pub Shorter : {S : Type 0} → ℕ → ℕ → Item S → Type 0
Shorter k n (failed demux) = Unit {0}
Shorter k n (parsed m rest demux) = length rest + k ≤ n

abbrev pub LeavesLess : {A : Type 0} → ℕ → ℕ → Option (A × Bytes) → Type 0
LeavesLess k n none = Unit {0}
LeavesLess k n (some (a, rest)) = length rest + k ≤ n

taken-LeavesLess :
    {A : Type 0} (n : ℕ) (f : Bytes → A) (bs : Bytes) → LeavesLess n (length bs) (taken n f bs)
taken-LeavesLess n f bs = elim (Bool-cases (leb n (length bs))) [
  | inl h ↦ rw h (omega (arith, length-drop n bs, leb→le n (length bs) h))
  | inr h ↦ rw h tt
]

or_fail-Shorter :
    {A S : Type 0} (k j n : ℕ) (m : Option (A × Bytes)) (demux : S) (f : A × Bytes → Item S)
    → LeavesLess j n m
    → ((a : A) (rest : Bytes) → length rest + j ≤ n → Shorter k n (f (a, rest)))
    → Shorter k n (or_fail m demux f)
or_fail-Shorter k j n none demux f h hf = tt
or_fail-Shorter k j n (some (a, rest)) demux f h hf = hf a rest h

less-bind :
    {A B : Type 0} (k j n : ℕ) (m : Option (A × Bytes)) (f : A × Bytes → Option (B × Bytes))
    → LeavesLess j n m
    → ((a : A) (rest : Bytes) → length rest + j ≤ n → LeavesLess k n (f (a, rest)))
    → LeavesLess k n (m >>= f)
less-bind k j n none f h hf = tt
less-bind k j n (some (a, rest)) f h hf = hf a rest h

if_less :
    {A : Type 0} (k n : ℕ) (b : Bool) (x y : Option (A × Bytes))
    → LeavesLess k n x
    → LeavesLess k n y
    → LeavesLess k n (if b then x else y)
if_less k n true x y hx hy = hx
if_less k n false x y hx hy = hy

pub less_weaken :
    {A : Type 0} (k j n m : ℕ) (o : Option (A × Bytes))
    → n + j ≤ m + k
    → LeavesLess k n o
    → LeavesLess j m o
less_weaken k j n m none h s = tt
less_weaken k j n m (some (a, rest)) h s = omega arith

if_Shorter :
    {S : Type 0} (k n : ℕ) (b : Bool) (x y : Item S)
    → Shorter k n x
    → Shorter k n y
    → Shorter k n (if b then x else y)
if_Shorter k n true x y hx hy = hx
if_Shorter k n false x y hx hy = hy

pub weaken : {S : Type 0} (k j n m : ℕ) (i : Item S) → n + j ≤ m + k → Shorter k n i → Shorter j m i
weaken k j n m (failed demux) h s = tt
weaken k j n m (parsed b rest demux) h s = omega arith

module _ (p : Platform) (e : Env p) where
  open e use {readers}

  pub uint8_less : (bs : Bytes) → LeavesLess 1 (length bs) (readers.get_uint8 bs)
  uint8_less bs = rw (readers.get_uint8_lem bs) (taken-LeavesLess 1 byte_of bs)

  uint16_less : (bs : Bytes) → LeavesLess 2 (length bs) (readers.get_uint16_be bs)
  uint16_less bs = rw (readers.get_uint16_be_lem bs) (taken-LeavesLess 2 readers.read_uint16_be bs)

  pub uint32_less : (bs : Bytes) → LeavesLess 4 (length bs) (readers.get_uint32_be bs)
  uint32_less bs = rw (readers.get_uint32_be_lem bs) (taken-LeavesLess 4 readers.read_uint32_be bs)

  float64_less : (bs : Bytes) → LeavesLess 8 (length bs) (readers.get_float64_be bs)
  float64_less bs =
      rw (readers.get_float64_be_lem bs) (taken-LeavesLess 8 readers.read_double_be bs)

  data_less : (n : ℕ) (bs : Bytes) → LeavesLess n (length bs) (readers.get_data n bs)
  data_less n bs = rw (readers.get_data_lem n bs) (taken-LeavesLess n (λ x. x) bs)

  pub get_string_less : (bs : Bytes) → LeavesLess 2 (length bs) (get_string p e bs)
  unfolding get_string
  get_string_less bs =
      less-bind 2 2 (length bs) (readers.get_uint16_be bs) _ (uint16_less bs) λ size rest h.
        if_less 2 (length bs) (ltb (length rest) size) none _ tt (
          if_less 2 (length bs) (readers.try_malloc0 (size + 1)) _ none
            (less-bind 2 2 (length bs) (readers.get_data size rest) _
              (less_weaken size 2 (length rest) (length bs) (readers.get_data size rest)
                (omega arith) (data_less size rest))
              λ s left hs.
                if_less 2 (length bs) (readers.utf8_validate s) (some (s, left)) none hs tt)
            tt)

  -- The loop over an array's values.
  parse_elements-Shorter :
      (n : ℕ) (name bs : Bytes) (demux : State p e)
      → Shorter 0 (length bs) (parse_elements p e n name bs demux)
  unfolding parse_elements
  parse_elements-Shorter zero name bs demux = omega arith
  parse_elements-Shorter (suc n) name bs demux =
      or_fail-Shorter 0 1 (length bs) (readers.get_uint8 bs) demux _ (uint8_less bs) λ type rest h.
        if_Shorter 0 (length bs) (type == 0) _ _
          (weaken 0 0 (length rest) (length bs) _ (omega arith) (
            or_fail-Shorter 0 8 (length rest) (readers.get_float64_be rest) demux _
              (float64_less rest)
              λ d left hd.
                weaken 0 0 (length left) (length rest) _ (omega arith)
                  (parse_elements-Shorter n name left (add_element p e name d demux))))
          (weaken 0 0 (length rest) (length bs) _ (omega arith)
            (parse_elements-Shorter n name rest demux))

  pub parse_flat-Shorter :
      (kind : ValueKind) (name bs : Bytes) (demux : State p e)
      → Shorter 0 (length bs) (parse_flat p e kind name bs demux)
  unfolding parse_flat
  parse_flat-Shorter number name bs demux =
      or_fail-Shorter 0 8 (length bs) (readers.get_float64_be bs) demux _ (float64_less bs)
        λ d rest h. omega arith
  parse_flat-Shorter boolean name bs demux =
      or_fail-Shorter 0 1 (length bs) (readers.get_uint8 bs) demux _ (uint8_less bs)
        λ d rest h. omega arith
  parse_flat-Shorter string name bs demux =
      or_fail-Shorter 0 2 (length bs) (get_string p e bs) demux _ (get_string_less bs)
        λ d rest h. omega arith
  parse_flat-Shorter array name bs demux =
      or_fail-Shorter 0 4 (length bs) (readers.get_uint32_be bs) demux _ (uint32_less bs)
        λ n rest h.
          weaken 0 0 (length rest) (length bs) _ (omega arith)
            (parse_elements-Shorter n name rest (start_array p e name demux))
  parse_flat-Shorter date name bs demux =
      or_fail-Shorter 0 8 (length bs) (readers.get_float64_be bs) demux _ (float64_less bs)
        λ d rest h. weaken 0 0 (length rest) (length bs) _ (omega arith) (
          or_fail-Shorter 0 2 (length rest) (readers.get_uint16_be rest) demux _ (uint16_less rest)
            λ i left hi. omega arith)
  parse_flat-Shorter end_marker name bs demux = omega arith
  parse_flat-Shorter object name bs demux = omega arith
  parse_flat-Shorter ecma_array name bs demux = omega arith
  parse_flat-Shorter unsupported name bs demux = omega arith
