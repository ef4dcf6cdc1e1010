-- ===== src/Latency/Tests.antt =====
-- Four samples, one of them above a second, and a witness.
use iocp_multi_threading_cha.Prelude.{ℕ, ◌≡◌, refl, Option, none, some, List, [], ◌∷◌, arith}
use iocp_multi_threading_cha.Latency.{LatencyMonitor, reset, bucket_idx, record_sample, record_all}
use iocp_multi_threading_cha.Latency.Percentile.{Answers, percentile-Answers}

abbrev samples : List ℕ
samples = 320 ∷ 1500000 ∷ 50 ∷ 120 ∷ []

abbrev least : Option LatencyMonitor → ℕ
least none = 0
least (some m) = m.min_latency_us

least-run : least (record_all samples reset) ≡ 50
unfolding record_all record_sample bucket_idx
least-run = refl

-- A time of 59 hours gives a negative index.
overflow : bucket_idx 214748364800 ≡ none
unfolding bucket_idx
overflow = refl

percentile-Answers_example : Answers 2 samples
percentile-Answers_example =
    percentile-Answers 2 samples (omega arith, (omega arith, (omega arith, (omega arith, tt))))
      (omega arith) (omega arith) (omega arith)
