-- ===== src/Demux/Env.antt =====
-- What the demuxer takes from outside of it, in one record, and parse_flv_demux_parse_date_string.
use ubox_publisher.Common.{
  ℕ, ◌+◌, ◌^◌, Bool, true, false, not, ◌&&◌, Option, none, some, List, [], ◌∷◌, ltb, ◌==◌,
  if◌then◌else◌, u32,
}
use ubox_publisher.Common.Memory.{Bytes, codes}
use ubox_publisher.Common.Options.{◌>>=◌}
use ubox_publisher.Gst.Numbers.{ℤ, pos, negsuc, max_uint}
use ubox_publisher.Gst.Platform.{Platform}
use ubox_publisher.Gst.Readers.{Readers}
use ubox_publisher.Demux.State.{IndexOps, Neighbours, DateTime, Action}
use ubox_publisher.Demux.Header.{Upstream}

-- GLib's and C's functions on strings, and whether gst_date_time_new accepts a date.
pub record Dates : Type 0 where
  -- g_strstrip, then g_strsplit at spaces
  pub tokens : Bytes → List Bytes
  -- g_ascii_strtoull in base 10, and whether `endptr` is at the end
  pub strtoull : Bytes → ℕ × Bool
  -- sscanf with "%d:%d:%d": its count, and the numbers, 0 where one is not set
  pub scan_time : Bytes → ℕ × ℤ × ℤ × ℤ
  pub is_date : DateTime → Bool

pub record Env (p : Platform) : Type 1 where
  pub readers : Readers p
  pub index : IndexOps
  pub neighbours : Neighbours p.Double
  pub dates : Dates
  -- the answer to the queries of seekability, by what was sent
  pub upstream : List Action → Upstream

-- strcmp
abbrev pub same : Bytes → Bytes → Bool
same [] [] = true
same (a ∷ as') (b ∷ bs) = (a == b) && same as' bs
same _ _ = false

-- `hh >= 0 && hh < k`
abbrev pub int_in : ℤ → ℕ → Option ℕ
int_in (pos n) k = if ltb n k then some n else none
int_in (negsuc n) k = none

abbrev pub month_from : ℕ → List Bytes → Bytes → Option ℕ
month_from i [] s = none
month_from i (m ∷ ms) s = if same s m then some (i + 1) else month_from (i + 1) ms s

abbrev pub months : List Bytes
months =
    codes "Jan"
    ∷ codes "Feb"
    ∷ codes "Mar"
    ∷ codes "Apr"
    ∷ codes "May"
    ∷ codes "Jun"
    ∷ codes "Jul"
    ∷ codes "Aug"
    ∷ codes "Sep"
    ∷ codes "Oct"
    ∷ codes "Nov"
    ∷ codes "Dec"
    ∷ []

abbrev pub unset_if_negative_one : ℕ → Option ℕ
unset_if_negative_one n = if n == max_uint then none else some n

module _ (d : Dates) where
  -- A number, unless it is 0 in front of something else.
  abbrev pub number : Bytes → Option ℕ
  number s = let (n, at_end) = d.strtoull s in if (n == 0) && not at_end then none else some (u32 n)

  unfoldable pub time_of : Bytes → Option (ℕ × ℕ × ℕ)
  time_of s =
      let (count, hh, mm, ss) = d.scan_time s in
      if ltb count 2
      then none
      else (do h ← int_in hh 24; m ← int_in mm 60; s ← int_in ss 60; some (h, m, s))

  -- What is read before the first field that is not as it should be.
  unfoldable pub from_month : ℕ → Bytes → Bytes → Bytes → DateTime
  from_month year month day time =
      let unset : DateTime = record { year = year; month = none; day = none; time = none } in
      elim (month_from 0 months month) [
        | none ↦ unset
        | some m ↦ elim (number day) [
          | none ↦ record unset { month = some m }
          | some n ↦ record unset {
            month = some m;
            day = unset_if_negative_one n;
            time = time_of time;
          }
        ]
      ]

  unfoldable pub date_time_new : DateTime → Option DateTime
  date_time_new date =
      if ltb 0 date.year && ltb date.year (2 ^ 31) && d.is_date date then some date else none

  unfoldable pub date_from_tokens : List Bytes → Option DateTime
  unfolding from_month date_time_new
  date_from_tokens (_ ∷ month ∷ day ∷ time ∷ year ∷ []) = do
    y ← number year
    date_time_new (from_month y month day time)
  date_from_tokens _ = none

  unfoldable pub parse_date_string : Bytes → Option DateTime
  parse_date_string s = date_from_tokens (d.tokens s)
