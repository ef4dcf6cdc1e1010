-- ===== src/Latency.antt =====
-- The latency histogram of the stress tester: Source/DummyClient/Monitoring/LatencyMonitor.h. Times are
-- microseconds; each loop round a compare-and-swap is one step. What is read out is left in buckets and
-- microseconds, and the rank that floating-point arithmetic gives is an argument.
pub mod Buckets
pub mod Percentile
mod Tests
use iocp_multi_threading_cha.Prelude.{
  ℕ, zero, suc, ◌+◌, ◌/◌, ◌%◌, Bool, Option, none, some, List, [], ◌∷◌, ltb, leb, ◌==◌,
  if◌then◌else◌, update,
}

abbrev pub bucket_resolution_us : ℕ
bucket_resolution_us = 100

abbrev pub num_buckets : ℕ
num_buckets = 10001

pub record LatencyMonitor : Type 0 where
  pub buckets : ℕ → ℕ
  pub total_count : ℕ
  pub total_latency_us : ℕ
  pub min_latency_us : ℕ
  pub max_latency_us : ℕ

-- `LatencyMonitor::Reset`.
abbrev pub reset : LatencyMonitor
reset = record {
  buckets = λ i. 0;
  total_count = 0;
  total_latency_us = 0;
  min_latency_us = 4294967295;
  max_latency_us = 0;
}

-- `bucketIdx`. The cast to `int32` makes a quotient of 2 ^ 31 or more negative, and the array is then
-- read before its start: no result.
unfoldable pub bucket_idx : ℕ → Option ℕ
bucket_idx rtt_us =
    let word = rtt_us / bucket_resolution_us % 4294967296 in
    if leb 2147483648 word then none else some (if leb num_buckets word then 10000 else word)

-- The counters of a sample before its bucket.
abbrev pub measure : ℕ → LatencyMonitor → LatencyMonitor
measure rtt_us m = record m {
  total_count = (m.total_count + 1) % 18446744073709551616;
  total_latency_us = (m.total_latency_us + rtt_us) % 18446744073709551616;
  min_latency_us = if ltb rtt_us m.min_latency_us then rtt_us % 4294967296 else m.min_latency_us;
  max_latency_us = if ltb m.max_latency_us rtt_us then rtt_us % 4294967296 else m.max_latency_us;
}

abbrev pub put : Option ℕ → LatencyMonitor → Option LatencyMonitor
put none m = none
put (some i) m = some (record m { buckets = update m.buckets i ((m.buckets i + 1) % 4294967296) })

-- `LatencyMonitor::RecordSample`.
unfoldable pub record_sample : ℕ → LatencyMonitor → Option LatencyMonitor
unfolding bucket_idx
record_sample rtt_us m = put (bucket_idx rtt_us) (measure rtt_us m)

-- Samples, one after the other.
unfoldable pub record_all : List ℕ → LatencyMonitor → Option LatencyMonitor
unfolding record_sample
record_all [] m = some m
record_all (x ∷ xs) m = elim (record_sample x m) [ none ↦ none | some m' ↦ record_all xs m' ]

-- The loop of `GetPercentileMs` over `n` buckets from `i` on: the first at which the sum reaches the
-- rank. The sum of 10001 `uint32`s is far below 2 ^ 64.
unfoldable pub scan : ℕ → ℕ → ℕ → ℕ → LatencyMonitor → Option ℕ
scan zero i accumulated rank m = none
scan (suc n) i accumulated rank m =
    let sum = accumulated + m.buckets i in
    let rest = scan n (suc i) sum rank m in if leb rank sum then some i else rest

-- What `GetPercentileMs` reads: no sample, the bucket whose middle it returns, or the largest time.
pub data Quantile : Type 0 where
  no_sample : Quantile
  middle : ℕ → Quantile
  largest : ℕ → Quantile

abbrev pub found : Option ℕ → LatencyMonitor → Quantile
found none m = largest m.max_latency_us
found (some i) m = middle i

-- `LatencyMonitor::GetPercentileMs`, with `target_rank` the value of the cast.
unfoldable pub get_percentile : ℕ → LatencyMonitor → Quantile
get_percentile target_rank m =
    if m.total_count == 0
    then no_sample
    else found (scan num_buckets 0 0 (if target_rank == 0 then 1 else target_rank) m) m
