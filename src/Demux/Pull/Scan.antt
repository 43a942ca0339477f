-- ===== src/Demux/Pull/Scan.antt =====
-- gst_flv_demux_create_index and gst_flv_demux_get_metadata: what is read ahead in pull mode.
pub mod Steps
pub mod Ends
use ubox_publisher.Common.{
  ℕ, zero, suc, ◌+◌, ◌-◌, Bool, true, false, not, ◌&&◌, ◌||◌, Option, none, some, ltb, ◌==◌,
  if◌then◌else◌, sub64,
}
use ubox_publisher.Common.Memory.{Bytes}
use ubox_publisher.Common.Options.{◌>>=◌}
use ubox_publisher.Gst.Numbers.{clock_time_none}
use ubox_publisher.Gst.Data.{FlowReturn, ok, eos, is_ok}
use ubox_publisher.Gst.Platform.{Platform}
use ubox_publisher.Demux.Header.{byte_at, read24, read32, Stamp, parse_tag_timestamp}
use ubox_publisher.Demux.Env.{Env}
use ubox_publisher.Demux.Send.{State}
use ubox_publisher.Demux.Metadata.{parse_tag_script}
use ubox_publisher.Demux.Chain.{advance}
use ubox_publisher.Demux.Pull.{pull_range}

-- One turn of the loop over the tags: it goes on, it ends with an answer, or a load is from outside
-- of the buffer.
pub data Scan (S : Type 0) : Type 0 where
  scanning : S → Scan S
  scanned : FlowReturn → S → Scan S
  outside : Scan S

module _ (p : Platform) (e : Env p) where
  open e use {readers, index}

  -- A tag without a time, or later than the time that is looked for, ends the loop. `*tag_size` is
  -- written wherever there is a time.
  unfoldable pub scan_past : ℕ → Stamp p readers index → Scan (State p e)
  scan_past ts stamp =
      if (stamp.timestamp == clock_time_none) || ltb ts stamp.timestamp
      then scanned ok stamp.demux
      else elim stamp.tag_size [
        | none ↦ outside
        | some size ↦ scanning (advance p e size stamp.demux)
      ]

  unfoldable pub scan_tag : ℕ → Bytes → State p e → Scan (State p e)
  scan_tag ts bs demux = elim (parse_tag_timestamp p readers index true bs demux) [
    | none ↦ outside
    | some stamp ↦ scan_past ts stamp
  ]

  -- The end of the file makes the index complete.
  unfoldable pub scan_stopped : FlowReturn → State p e → Scan (State p e)
  scan_stopped eos demux = scanned ok (record demux { indexed = true })
  scan_stopped ret demux = scanned ret demux

  unfoldable pub scan_turn : ℕ → State p e → Scan (State p e)
  scan_turn ts demux =
      let (ret, bs) = pull_range p e demux.offset 12 demux in
      let tag = scan_tag ts bs demux in if is_ok ret then tag else scan_stopped ret demux

  abbrev pub scan_more : (State p e → Scan (State p e)) → Scan (State p e) → Scan (State p e)
  scan_more loop (scanning demux) = loop demux
  scan_more loop (scanned ret demux) = scanned ret demux
  scan_more loop outside = outside

  -- The turns up to one that ends the loop. `scanning` is out of fuel.
  unfoldable pub scan_loop : ℕ → ℕ → State p e → Scan (State p e)
  scan_loop zero ts demux = scanning demux
  scan_loop (suc f) ts demux = scan_more (scan_loop f ts) (scan_turn ts demux)

  abbrev pub back_at : ℕ → Scan (State p e) → Scan (State p e)
  back_at old (scanned ret demux) = scanned ret (record demux { offset = old })
  back_at old (scanning demux) = scanning demux
  back_at old outside = outside

  -- The entries of the index from a position up to a time, with fuel.
  unfoldable pub create_index : ℕ → ℕ → ℕ → State p e → Scan (State p e)
  create_index fuel pos ts demux = elim (e.upstream demux.sent).size [
    | none ↦ scanned ok demux
    | some size ↦ back_at demux.offset (scan_loop fuel ts (record demux { offset = pos }))
  ]

  -- The script tag behind its type and size; what the parser answers is not looked at.
  unfoldable pub pull_script : ℕ → ℕ → State p e → Option (State p e)
  pull_script offset tag_size demux =
      let (ret, bs) = pull_range p e offset tag_size demux in
      let parsed = (do (_, demux') ← parse_tag_script p e bs demux; some demux') in
      if is_ok ret then parsed else some demux

  unfoldable pub read_last_tag : ℕ → ℕ → Bytes → State p e → Option (State p e)
  read_last_tag offset tag_size bs demux = do
    size ← read24 p readers index 1 bs
    if not (size == sub64 tag_size 11) then some demux else (do
      stamp ← parse_tag_timestamp p readers index false bs demux
      type ← byte_at 0 bs
      if type == 18 then pull_script (offset + 4) tag_size stamp.demux else some stamp.demux)

  unfoldable pub pull_last_tag : ℕ → ℕ → State p e → Option (State p e)
  pull_last_tag offset tag_size demux =
      let (ret, bs) = pull_range p e (offset - tag_size) 12 demux in
      let last = read_last_tag (offset - tag_size) tag_size bs demux in
      if ltb offset tag_size || not (is_ok ret) then some demux else last

  -- The size behind the last tag is at `offset`.
  unfoldable pub pull_last_size : ℕ → State p e → Option (State p e)
  pull_last_size offset demux =
      let (ret, bs) = pull_range p e offset 4 demux in
      let last = (do tag_size ← read32 p readers index 0 bs; pull_last_tag offset tag_size demux) in
      if is_ok ret then last else some demux

  -- The size of the file, 0 if it is not known, and what its last tag says.
  unfoldable pub get_metadata : State p e → Option (ℕ × State p e)
  get_metadata demux = elim (e.upstream demux.sent).size [
    | none ↦ some (0, demux)
    | some size ↦ do
      demux' ← (if ltb size 4 then some demux else pull_last_size (size - 4) demux)
      some (size, demux')
  ]
