-- ===== src/Collector/Statistics.antt =====
-- collector/core/Statistics.hpp and Statistics.cpp. A `size_t` and a `uint64_t` wrap at 2 ^ 64; a
-- time is the count of nanoseconds of `steady_clock`, and the averages are those of a type of
-- doubles that is a parameter.
pub mod Report
pub mod LastHour
pub mod Totals
use loggerlib.Logger.LogLevel.{LogLevel, index}
use loggerlib.Prelude.Int.{ℤ, pos, negsuc, ◌+ℤ◌, ◌-ℤ◌, leb_ℤ, eq_ℤ}
use loggerlib.Prelude.{
  modify, ℕ, zero, suc, ◌+◌, ◌-◌, ◌*◌, ◌/◌, ◌%◌, ◌^◌, ◌≤◌, ◌<◌, min, max, ◌≡◌, refl, sym, ap, ◌∙◌,
  ◌≢◌, ◌↔◌, ◌⊎◌, inl, inr, Bool, true, false, not, ◌&&◌, ◌||◌, Option, none, some, List, [], ◌∷◌,
  ◌++◌, map, append_assoc, append-nil, arith, Bytes, codes, Lacks, All, All-append, length,
  get_elem?, take, drop, replicate, length-append, take-length, drop-length, drop_past, take_all,
  equal, equal_iff, find, rfind, find_pair, substr, Cut, absent, at, find-Cut, ltb, leb, ◌==◌,
  if◌then◌else◌, ltb→lt, leb→le, ltb→le, lt→ltb, le→ltb, ==_iff, ==_refl, ==_ne, Bool-cases,
  Option-cases, every_below, every_below_at,
}

abbrev pub word : ℕ → ℕ
word n = n % 2 ^ 64

-- `static_cast<std::uint64_t>(minute)`
abbrev pub to_uint64 : ℤ → ℕ
to_uint64 (pos n) = word n
to_uint64 (negsuc n) = word (2 ^ 64 - 1 - n % 2 ^ 64)

abbrev pub nanos_per_minute : ℕ
nanos_per_minute = 60 * 1_000_000_000

-- `duration_cast` rounds towards zero.
unfoldable pub minute_of : ℤ → ℤ
minute_of (pos now) = pos (now / nanos_per_minute)
minute_of (negsuc now) = pos 0 -ℤ pos (suc now / nanos_per_minute)

pub record Bucket : Type 0 where
  pub minute : ℤ
  pub count : ℕ

-- `kBuckets`
abbrev pub buckets : ℕ
buckets = 60

pub record Statistics : Type 0 where
  pub minutes : List Bucket
  pub by_level : List ℕ
  pub total : ℕ
  pub malformed : ℕ
  pub min_length : ℕ
  pub max_length : ℕ
  pub total_length : ℕ

abbrev pub new_statistics : Statistics
new_statistics = record {
  minutes = replicate buckets (record { minute = negsuc 0; count = 0 });
  by_level = replicate (index LogLevel.count) 0;
  total = 0;
  malformed = 0;
  min_length = 0;
  max_length = 0;
  total_length = 0;
}

unfoldable pub count_minute : ℤ → Bucket → Bucket
count_minute minute bucket =
    if eq_ℤ bucket.minute minute
    then record { minute = bucket.minute; count = word (bucket.count + 1) }
    else record { minute = minute; count = word (0 + 1) }

unfoldable pub add : Statistics → LogLevel → ℕ → ℤ → Statistics
unfolding count_minute
add s level len now =
    let total = word (s.total + 1) in
    record {
      minutes =
          modify (to_uint64 (minute_of now) % buckets) (count_minute (minute_of now)) s.minutes;
      by_level =
          if ltb (index level) (length s.by_level)
          then modify (index level) (λ n. word (n + 1)) s.by_level
          else s.by_level;
      total = total;
      malformed = s.malformed;
      min_length = if total == 1 then len else min s.min_length len;
      max_length = max s.max_length len;
      total_length = word (s.total_length + len);
    }

unfoldable pub add_malformed : Statistics → Statistics
add_malformed s = record s { malformed = word (s.malformed + 1) }

pub record Snapshot (Double : Type 0) : Type 0 where
  pub total : ℕ
  pub malformed : ℕ
  pub by_level : List ℕ
  pub last_hour : ℕ
  pub min_length : ℕ
  pub max_length : ℕ
  pub average_length : Double

-- The loop over the buckets in `snapshot`.
unfoldable pub count_since : ℤ → List Bucket → ℕ → ℕ
count_since oldest [] last_hour = last_hour
count_since oldest (bucket ∷ rest) last_hour =
    count_since oldest rest
      (if leb_ℤ oldest bucket.minute then word (last_hour + bucket.count) else last_hour)

unfoldable pub oldest_minute : ℤ → ℤ
unfolding minute_of
oldest_minute now = minute_of now -ℤ pos buckets +ℤ pos 1

-- `zero` is `0.0`, and `divide a b` is the quotient of two integers cast to `double`.
module _ {Double : Type 0} (zero_double : Double) (divide : ℕ → ℕ → Double) where
  unfoldable pub snapshot : Statistics → ℤ → Snapshot Double
  unfolding count_since oldest_minute
  snapshot s now = record {
    total = s.total;
    malformed = s.malformed;
    by_level = s.by_level;
    last_hour = count_since (oldest_minute now) s.minutes 0;
    min_length = s.min_length;
    max_length = s.max_length;
    average_length = if s.total == 0 then zero_double else divide s.total_length s.total;
  }
