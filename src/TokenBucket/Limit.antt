-- ===== src/TokenBucket/Limit.antt =====
-- How many packets a `TokenBucket` lets pass.
use iocp_multi_threading_cha.Prelude.{
  ℕ, ◌+◌, ◌-◌, ◌*◌, ◌/◌, ◌%◌, ◌≤◌, ◌≡◌, List, [], ◌∷◌, ltb, leb, if◌then◌else◌, arith, Bool-cases,
  inl, inr,
}
use iocp_multi_threading_cha.TokenBucket.{
  TokenBucket, add_tokens, refill, consume, reset, consume_each,
}

abbrev pub IsValid : TokenBucket → Type 0
IsValid b = b.tokens ≤ b.capacity

-- The tokens that a bucket can hand out up to the time `end`, in thousandths.
abbrev pub budget : TokenBucket → ℕ → ℕ
budget b end = 1000 * b.tokens + (end - b.last_refill_tick) * b.refill_rate_per_sec

add_tokens-bound : (b : TokenBucket) (n : ℕ) → 1000 * add_tokens b n ≤ n * b.refill_rate_per_sec
add_tokens-bound b n = elim (Bool-cases (ltb word 2147483648)) [
  | inl small ↦ rw (small) (omega arith)
  | inr large ↦ rw (large) (omega arith)
]
  where
    word : ℕ
    word = n * b.refill_rate_per_sec % 18446744073709551616 / 1000 % 4294967296

span-split :
    (first mid end rate : ℕ)
    → first ≤ mid
    → mid ≤ end
    → (mid - first) * rate + (end - mid) * rate ≡ (end - first) * rate
span-split first mid end rate h i =
    let e : end - first ≡ (mid - first) + (end - mid) = omega (arith, h, i) in rw (e) (omega arith)

-- A refill adds at most what the time since the last one earns.
refill-budget :
    (b : TokenBucket) (now end : ℕ)
    → now ≤ end
    → b.last_refill_tick ≤ end
    → let r = refill b now in
      (r.last_refill_tick ≤ end)
      × (r.refill_rate_per_sec ≡ b.refill_rate_per_sec)
      × (budget r end ≤ budget b end)
unfolding refill
refill-budget b now end h i = ground (
  arith,
  add_tokens-bound b (now - b.last_refill_tick),
  span-split b.last_refill_tick now end b.refill_rate_per_sec,
)

-- A call that passes takes one token, and one that does not takes none.
consume-budget :
    (b : TokenBucket) (now end : ℕ)
    → now ≤ end
    → b.last_refill_tick ≤ end
    → let (passed, b') = consume b 1 now in
      (b'.last_refill_tick ≤ end)
      × (b'.refill_rate_per_sec ≡ b.refill_rate_per_sec)
      × ((if passed then 1000 else 0) + budget b' end ≤ budget b end)
unfolding consume
consume-budget b now end h i =
    let (before, rate, left) = refill-budget b now end h i in ground (arith, before, rate, left)

abbrev pub All : List ℕ → ℕ → Type 0
All [] end = Unit
All (now ∷ times) end = (now ≤ end) × All times end

-- The number of calls of `Consume()` up to a time `end`, not before the last refill, that return true
-- is at most the tokens at the start and those that the time since the last refill earns at
-- `_refillRatePerSec` a second, however the calls are spread and in whatever order the clock's values
-- reach them.
pub consume_each-limit :
    (b : TokenBucket) (times : List ℕ) (end : ℕ)
    → All times end
    → b.last_refill_tick ≤ end
    → 1000 * (consume_each b times).0 ≤ budget b end
unfolding consume_each
consume_each-limit b [] end h i = omega arith
consume_each-limit b (now ∷ times) end (h, hs) i =
    let (before, rate, left) = consume-budget b now end h i in
    let rest = consume_each-limit (consume b 1 now).1 times end hs before in
    ground (arith, rest, left)

-- `Consume` returns true exactly if the refilled bucket has `count` tokens, and takes them then. The
-- tokens never exceed the capacity; nor do they after `Reset`, which fills the bucket.
pub consume-takes :
    (b : TokenBucket) (count now : ℕ)
    → IsValid b
    → let (passed, b') = consume b count now in
      (passed ≡ leb count (refill b now).tokens)
      × (b'.tokens ≡ (if passed then (refill b now).tokens - count else (refill b now).tokens))
      × ((refill b now).tokens ≤ b.capacity)
      × IsValid b'
      × IsValid (reset b' now)
      × ((reset b' now).tokens ≡ b.capacity)
unfolding consume reset refill
consume-takes b count now v = ground arith
