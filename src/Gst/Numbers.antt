-- ===== src/Gst/Numbers.antt =====
-- Sentinels and units of GStreamer's clock times, and bytes in network order.
-- A guint64 or a gint64 is its bit pattern, below 2 ^ 64.
use ubox_publisher.Common.{
  ℕ, ◌/◌, ◌%◌, ◌^◌, ◌-◌, [], ◌∷◌, Bool, false, not, ◌==◌, ltb, if◌then◌else◌,
}
use ubox_publisher.Common.Memory.{Bytes}

-- GST_CLOCK_TIME_NONE, that is (GstClockTime) -1.
abbrev pub clock_time_none : ℕ
clock_time_none = 2 ^ 64 - 1

-- GST_CLOCK_STIME_NONE, that is G_MININT64.
abbrev pub clock_stime_none : ℕ
clock_stime_none = 2 ^ 63

abbrev pub is_valid : ℕ → Bool
is_valid t = not (t == clock_time_none)

abbrev pub is_valid_stime : ℕ → Bool
is_valid_stime t = not (t == clock_stime_none)

-- GST_SECOND and GST_MSECOND in nanoseconds. They are of a signed type.
abbrev pub second : ℕ
second = 1_000_000_000

abbrev pub msecond : ℕ
msecond = 1_000_000

-- A gint64 of nanoseconds over GST_MSECOND: a quotient of signed numbers, rounded towards 0.
abbrev pub stime_to_msecs : ℕ → ℕ
stime_to_msecs t =
    if ltb t (2 ^ 63) then t / msecond else (2 ^ 64 - (2 ^ 64 - t) / msecond) % 2 ^ 64

-- G_MAXUINT and G_MAXINT32.
abbrev pub max_uint : ℕ
max_uint = 2 ^ 32 - 1

abbrev pub max_int32 : ℕ
max_int32 = 2 ^ 31 - 1

-- Big-endian integers of 16, 24 and 32 bits.
abbrev pub be16 : ℕ → Bytes
be16 n = n / 256 % 256 ∷ n % 256 ∷ []

abbrev pub be24 : ℕ → Bytes
be24 n = n / 65536 % 256 ∷ n / 256 % 256 ∷ n % 256 ∷ []

abbrev pub be32 : ℕ → Bytes
be32 n = n / 16777216 % 256 ∷ n / 65536 % 256 ∷ n / 256 % 256 ∷ n % 256 ∷ []

-- A C int, as it stands in a caps field.
pub data ℤ : Type 0 where
  pos : ℕ → ℤ
  negsuc : ℕ → ℤ

-- `i == k` for a constant k that is not negative.
abbrev pub int_eq : ℤ → ℕ → Bool
int_eq (pos n) k = n == k
int_eq (negsuc n) k = false
