-- ===== src/Latency/Buckets.antt =====
-- The buckets of Source/DummyClient/Monitoring/LatencyMonitor.h as the bag of the recorded samples.
use iocp_multi_threading_cha.Prelude.{
  ℕ, suc, ◌+◌, ◌/◌, ◌%◌, min, ◌≤◌, ◌<◌, ◌≡◌, ◌∙◌, refl, Option, some, List, [], ◌∷◌, ltb, ◌==◌,
  update, one_if, length, arith,
}
use iocp_multi_threading_cha.Latency.{
  LatencyMonitor, bucket_idx, measure, record_sample, record_all, num_buckets,
}

-- The class of a sample: tenths of a millisecond, from one second on all the same.
abbrev pub class_of : ℕ → ℕ
class_of rtt_us = min (rtt_us / 100) 10000

-- The samples of a bag in class `i`, and in classes below `i`.
abbrev pub in_class : ℕ → List ℕ → ℕ
in_class i [] = 0
in_class i (x ∷ xs) = one_if (class_of x == i) + in_class i xs

abbrev pub below : ℕ → List ℕ → ℕ
below i [] = 0
below i (x ∷ xs) = one_if (ltb (class_of x) i) + below i xs

-- Every sample is below 2 ^ 31 tenths of a millisecond, about 59 hours.
abbrev pub Sane : List ℕ → Type 0
Sane [] = Unit
Sane (x ∷ xs) = (x < 214748364800) × Sane xs

pub below-suc : (i : ℕ) (xs : List ℕ) → below (suc i) xs ≡ below i xs + in_class i xs
below-suc i [] = omega arith
below-suc i (x ∷ xs) = ground (arith, below-suc i xs)

pub below-all : (xs : List ℕ) → below num_buckets xs ≡ length xs
below-all [] = refl
below-all (x ∷ xs) = ground (arith, below-all xs)

pub below-zero : (xs : List ℕ) → below 0 xs ≡ 0
below-zero [] = refl
below-zero (x ∷ xs) = ground (arith, below-zero xs)

pub in_class-length : (i : ℕ) (xs : List ℕ) → in_class i xs ≤ length xs
in_class-length i [] = omega arith
in_class-length i (x ∷ xs) = ground (arith, in_class-length i xs)

bucket_idx-class : (x : ℕ) → x < 214748364800 → bucket_idx x ≡ some (class_of x)
unfolding bucket_idx
bucket_idx-class x h = ground arith

-- The monitor holds the bag: each bucket the number of the samples of its class, and the count.
pub record Holds (seen : ℕ → ℕ) (count : ℕ) (xs : List ℕ) (o : Option LatencyMonitor) : Type 0 where
  pub monitor : LatencyMonitor
  pub recorded : o ≡ some monitor
  pub classes : (i : ℕ) → monitor.buckets i ≡ (seen i + in_class i xs) % 4294967296
  pub counted : monitor.total_count ≡ (count + length xs) % 18446744073709551616

-- The monitor with one sample more in class `i`.
abbrev put_in : ℕ → ℕ → LatencyMonitor → LatencyMonitor
put_in i x m = record (measure x m) {
  buckets = update m.buckets i ((m.buckets i + 1) % 4294967296);
}

record_all-cons :
    (x : ℕ) (xs : List ℕ) (m : LatencyMonitor)
    → x < 214748364800
    → record_all (x ∷ xs) m ≡ record_all xs (put_in (class_of x) x m)
unfolding record_all record_sample
record_all-cons x xs m small = rw (record_all, bucket_idx-class x small) refl

pub record_all-Holds :
    (xs : List ℕ) (m : LatencyMonitor)
    → Sane xs
    → ((i : ℕ) → m.buckets i < 4294967296)
    → m.total_count < 18446744073709551616
    → Holds m.buckets m.total_count xs (record_all xs m)
unfolding record_all record_sample
record_all-Holds [] m h b c = record {
  monitor = m;
  recorded = refl;
  classes = λ i. omega (arith, b i);
  counted = omega (arith, c);
}
record_all-Holds (x ∷ xs) m (small, hs) b c =
    let rest =
      record_all-Holds xs (put_in (class_of x) x m) hs (λ i. ground (arith, b i)) (omega arith) in
    record {
      monitor = rest.monitor;
      recorded = record_all-cons x xs m small ∙ rest.recorded;
      classes = λ i. ground (arith, rest.classes i);
      counted = omega (arith, rest.counted);
    }
