-- ===== src/Latency/Percentile.antt =====
-- `LatencyMonitor::GetPercentileMs` of Source/DummyClient/Monitoring/LatencyMonitor.h, against the bag
-- of the samples.
use iocp_multi_threading_cha.Prelude.{
  ℕ, zero, suc, ◌+◌, ◌≤◌, ◌<◌, ◌≡◌, ◌∙◌, refl, sym, ap, inl, inr, false, Option, some, List, leb,
  ◌==◌, length, Bool-cases, arith,
}
use iocp_multi_threading_cha.Latency.{
  LatencyMonitor, reset, record_all, num_buckets, scan, middle, found, get_percentile,
}
use iocp_multi_threading_cha.Latency.Buckets.{
  in_class, below, below-suc, below-all, below-zero, Sane, record_all-Holds, in_class-length,
}

-- The class in which the sample of a rank stands, the samples taken in the order of their classes.
pub record Ranked (rank : ℕ) (xs : List ℕ) (o : Option ℕ) : Type 0 where
  pub class : ℕ
  pub found_at : o ≡ some class
  pub before : below class xs < rank
  pub reached : rank ≤ below (suc class) xs

scan-Ranked :
    (n i acc rank : ℕ) (xs : List ℕ) (m : LatencyMonitor)
    → ((j : ℕ) → m.buckets j ≡ in_class j xs)
    → i + n ≡ num_buckets
    → acc ≡ below i xs
    → acc < rank
    → rank ≤ length xs
    → Ranked rank xs (scan n i acc rank m)
unfolding scan
scan-Ranked zero i acc rank xs m b e a l r =
    absurd (omega (arith, below-all xs, a ∙ ap (λ k. below k xs) (index e)))
  where
    index : i + 0 ≡ num_buckets → i ≡ num_buckets
    index h = omega (arith, h)
scan-Ranked (suc n) i acc rank xs m b e a l r = elim (Bool-cases (leb rank (acc + m.buckets i))) [
  | inl here ↦ record {
    class = i;
    found_at = rw (scan, here) refl;
    before = omega (arith, a, l);
    reached = ground (arith, here, below-suc i xs, b i, a);
  }
  | inr further ↦
      let next =
        scan-Ranked n (suc i) (acc + m.buckets i) rank xs m b (omega (arith, e))
          (omega (arith, below-suc i xs, b i, a)) (ground (arith, further)) r in
      record {
        class = next.class;
        found_at = rw (scan, further) next.found_at;
        before = next.before;
        reached = next.reached;
      }
]

get_percentile-found :
    (rank : ℕ) (m : LatencyMonitor) (i : ℕ)
    → (m.total_count == 0) ≡ false
    → (rank == 0) ≡ false
    → scan num_buckets 0 0 rank m ≡ some i
    → get_percentile rank m ≡ middle i
unfolding get_percentile
get_percentile-found rank m i counted not_zero f = rw (counted, not_zero) (ap (λ o. found o m) f)

-- What the monitor answers for a rank.
pub record Answers (rank : ℕ) (xs : List ℕ) : Type 0 where
  pub monitor : LatencyMonitor
  pub recorded : record_all xs reset ≡ some monitor
  pub class : ℕ
  pub answer : get_percentile rank monitor ≡ middle class
  pub before : below class xs < rank
  pub reached : rank ≤ below (suc class) xs

-- Whatever samples are recorded, fewer than 2 ^ 32 and each below 2 ^ 31 tenths of a millisecond, in
-- whatever order: no access leaves the array, and for every rank from 1 to their number
-- `GetPercentileMs` reads the bucket of the sample of that rank: fewer samples than the rank are in
-- the classes before it, and at least as many in these and its own.
pub percentile-Answers :
    (rank : ℕ) (xs : List ℕ)
    → Sane xs
    → length xs < 4294967296
    → 0 < rank
    → rank ≤ length xs
    → Answers rank xs
percentile-Answers rank xs sane few some_rank in_range =
    let h = record_all-Holds xs reset sane (λ i. omega arith) (omega arith) in
    let exact : (i : ℕ) → h.monitor.buckets i ≡ in_class i xs =
      λ i. h.classes i ∙ omega (arith, in_class-length i xs, few) in
    let r =
      scan-Ranked num_buckets 0 0 rank xs h.monitor exact refl (sym (below-zero xs)) some_rank
        in_range in
    let counted : (h.monitor.total_count == 0) ≡ false =
      ground (arith, h.counted, few, some_rank, in_range) in
    let not_zero : (rank == 0) ≡ false = ground (arith, some_rank) in
    record {
      monitor = h.monitor;
      recorded = h.recorded;
      class = r.class;
      answer = get_percentile-found rank h.monitor r.class counted not_zero r.found_at;
      before = r.before;
      reached = r.reached;
    }
