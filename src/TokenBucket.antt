-- ===== src/TokenBucket.antt =====
-- The rate limiter of a client: Source/ServerEngine/Utility/TokenBucket.h. An operation gets the value
-- of `GetTickCount64()` as `now`; each loop around a compare-and-swap is one step. The capacity and the
-- rate are positive `int32`s.
pub mod Limit
mod Tests
use iocp_multi_threading_cha.Prelude.{
  ℕ, zero, suc, ◌+◌, ◌-◌, ◌*◌, ◌/◌, ◌%◌, min, Bool, true, false, ◌||◌, List, [], ◌∷◌, ltb, leb,
  if◌then◌else◌,
}

pub record TokenBucket : Type 0 where
  pub capacity : ℕ
  pub refill_rate_per_sec : ℕ
  pub tokens : ℕ
  pub last_refill_tick : ℕ

abbrev pub make : ℕ → ℕ → ℕ → TokenBucket
make capacity rate now = record {
  capacity = capacity;
  refill_rate_per_sec = rate;
  tokens = capacity;
  last_refill_tick = now;
}

-- `static_cast<int32>((elapsedMs * _refillRatePerSec) / 1000)`: what the cast makes negative is not
-- added, and stands as 0.
abbrev pub add_tokens : TokenBucket → ℕ → ℕ
add_tokens b elapsed_ms =
    let word = elapsed_ms * b.refill_rate_per_sec % 18446744073709551616 / 1000 % 4294967296 in
    if ltb word 2147483648 then word else 0

-- `Refill`. The sum of the tokens and those added is an `int32`, which the model does not cut.
unfoldable pub refill : TokenBucket → ℕ → TokenBucket
refill b now =
    let elapsed_ms = now - b.last_refill_tick in
    if leb now b.last_refill_tick || ltb elapsed_ms 50 then b else record b {
      tokens =
          if ltb 0 (add_tokens b elapsed_ms)
          then min b.capacity (b.tokens + add_tokens b elapsed_ms)
          else b.tokens;
      last_refill_tick = now;
    }

unfoldable pub consume : TokenBucket → ℕ → ℕ → Bool × TokenBucket
unfolding refill
consume b count now =
    let r = refill b now in
    if ltb r.tokens count then (false, r) else (true, record r { tokens = r.tokens - count })

unfoldable pub reset : TokenBucket → ℕ → TokenBucket
reset b now = record b { tokens = b.capacity; last_refill_tick = now }

-- `Consume()` at each of the given times, and how many of these calls return true.
unfoldable pub consume_each : TokenBucket → List ℕ → ℕ × TokenBucket
unfolding consume
consume_each b [] = (0, b)
consume_each b (now ∷ times) =
    let (passed, b') = consume b 1 now in
    let (count, b'') = consume_each b' times in (if passed then suc count else count, b'')
