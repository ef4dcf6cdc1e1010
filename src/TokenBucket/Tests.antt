-- ===== src/TokenBucket/Tests.antt =====
-- A bucket of two tokens that earns twenty a second.
use iocp_multi_threading_cha.Prelude.{◌≡◌, refl, [], ◌∷◌}
use iocp_multi_threading_cha.TokenBucket.{TokenBucket, make, refill, consume, consume_each}

abbrev bucket : TokenBucket
bucket = make 2 20 1000

-- Two calls pass, one does not, and one passes after the next refill.
consume_each-runs : (consume_each bucket (1000 ∷ 1010 ∷ 1020 ∷ 1080 ∷ [])).0 ≡ 3
unfolding consume_each consume refill
consume_each-runs = refl
