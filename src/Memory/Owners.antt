-- ===== src/Memory/Owners.antt =====
-- Where each block of the pools is, and what the heap keeps true of it. `MemoryPool::Pop`
-- of MemoryPool.cpp and the lists of Memory.cpp.
use iocp_multi_threading_cha.Prelude.{
  ℕ, ◌+◌, ◌%◌, ◌≤◌, ◌≡◌, refl, Bool, true, false, ◌&&◌, some, List, [], ◌∷◌, ◌==◌, length,
  get_elem?, update, one_if, occurs, arith,
}
use iocp_multi_threading_cha.Memory.{
  header_magic, max_local_cache, Heap, set_pool, set_cache, set_header, init, after_init,
}

-- A block is not yet made, in a pool, in a thread's list for a pool, or in use and of a pool.
pub data Place : Type 0 where
  unborn : Place
  pooled : ℕ → Place
  cached : ℕ → ℕ → Place
  in_use : ℕ → Place

abbrev pub is_pooled : Place → ℕ → Bool
is_pooled (pooled j) i = j == i
is_pooled _ i = false

abbrev pub is_cached : Place → ℕ → ℕ → Bool
is_cached (cached u j) t i = u == t && j == i
is_cached _ t i = false

abbrev pub is_in_use : Place → ℕ → Bool
is_in_use (in_use j) i = j == i
is_in_use _ i = false

abbrev pub belongs : Place → ℕ → Bool
belongs unborn i = false
belongs (pooled j) i = j == i
belongs (cached u j) i = j == i
belongs (in_use j) i = j == i

-- Every list holds exactly the blocks that are there, each once; a block's header names its pool's
-- size; a thread's list is within its limit; and a pool's counters agree with its free blocks.
pub record Owned (place : ℕ → Place) (h : Heap) : Type 0 where
  pub pools : (b i : ℕ) → occurs b (h.pool i).free ≡ one_if (is_pooled (place b) i)
  pub caches : (b t i : ℕ) → occurs b (h.cache t i) ≡ one_if (is_cached (place b) t i)
  pub headers :
      (b i : ℕ)
      → belongs (place b) i ≡ true
      → h.header b ≡ record { alloc_size = (h.pool i).alloc_size; magic = header_magic }
  pub sizes : (i size : ℕ) → get_elem? init.sizes i ≡ some size → (h.pool i).alloc_size ≡ size
  pub limit : (t i : ℕ) → length (h.cache t i) ≤ max_local_cache
  pub counts :
      (i : ℕ)
      → ((h.pool i).use_count + length (h.pool i).free) % 4294967296
        ≡ (h.pool i).alloc_count % 4294967296

at_pool : (p : Place) (i : ℕ) → is_pooled p i ≡ true → p ≡ pooled i
at_pool (pooled j) i e = ground (arith, e)
at_pool unborn i e = absurd (ground (arith, e))
at_pool (cached u j) i e = absurd (ground (arith, e))
at_pool (in_use j) i e = absurd (ground (arith, e))

pub at_cache : (p : Place) (t i : ℕ) → is_cached p t i ≡ true → p ≡ cached t i
at_cache (cached u j) t i e = ground (arith, e)
at_cache unborn t i e = absurd (ground (arith, e))
at_cache (pooled j) t i e = absurd (ground (arith, e))
at_cache (in_use j) t i e = absurd (ground (arith, e))

pub at_use : (p : Place) (i : ℕ) → is_in_use p i ≡ true → p ≡ in_use i
at_use (in_use j) i e = ground (arith, e)
at_use unborn i e = absurd (ground (arith, e))
at_use (pooled j) i e = absurd (ground (arith, e))
at_use (cached u j) i e = absurd (ground (arith, e))

-- The head of a thread's list is taken out and put to use.
pub pop_cache-Owned :
    (t i b : ℕ) (rest : List ℕ) (place : ℕ → Place) (h : Heap)
    → Owned place h
    → h.cache t i ≡ b ∷ rest
    → (place b ≡ cached t i) × Owned (update place b (in_use i)) (set_cache t i rest h)
pop_cache-Owned t i b rest place h o e = (
  at,
  record {
    pools = λ c j. ground (arith, o.pools c j, at);
    caches = λ c u j. ground (arith, o.caches c u j, at, e);
    headers = λ c j. ground (arith, o.headers c j, o.headers b i, at);
    sizes = o.sizes;
    limit = λ u j. ground (arith, o.limit u j, e);
    counts = o.counts;
  },
)
  where
    at : place b ≡ cached t i
    at = at_cache (place b) t i (ground (arith, o.caches b t i, e))

-- The head of a pool's list is taken out and put to use.
pub pop_pool-Owned :
    (i b : ℕ) (rest : List ℕ) (place : ℕ → Place) (h : Heap)
    → Owned place h
    → (h.pool i).free ≡ b ∷ rest
    → (place b ≡ pooled i)
      × Owned (update place b (in_use i)) (
          set_pool i
            (record (h.pool i) { use_count = ((h.pool i).use_count + 1) % 4294967296; free = rest })
            h)
pop_pool-Owned i b rest place h o e = (
  at,
  record {
    pools = λ c j. ground (arith, o.pools c j, at, e);
    caches = λ c u j. ground (arith, o.caches c u j, at);
    headers = λ c j. ground (arith, o.headers c j, o.headers b i, at);
    sizes = λ j size. ground (arith, o.sizes j size);
    limit = o.limit;
    counts = λ j. ground (arith, o.counts j, e);
  },
)
  where
    at : place b ≡ pooled i
    at = at_pool (place b) i (ground (arith, o.pools b i, e))

-- A new block of an empty pool is put to use.
pub fresh-Owned :
    (i b : ℕ) (place : ℕ → Place) (h : Heap)
    → Owned place h
    → place b ≡ unborn
    → (h.pool i).free ≡ []
    → Owned (update place b (in_use i)) (
        set_pool i
          (record (h.pool i) {
            alloc_count = ((h.pool i).alloc_count + 1) % 4294967296;
            use_count = ((h.pool i).use_count + 1) % 4294967296;
          })
          (set_header b (h.pool i).alloc_size h))
fresh-Owned i b place h o at e = record {
  pools = λ c j. ground (arith, o.pools c j, at);
  caches = λ c u j. ground (arith, o.caches c u j, at);
  headers = λ c j. ground (arith, o.headers c j, at);
  sizes = λ j size. ground (arith, o.sizes j size);
  limit = o.limit;
  counts = λ j. ground (arith, o.counts j, e);
}

-- `AttachHeader` on a block in use changes nothing.
pub attach-Owned :
    (i b size : ℕ) (place : ℕ → Place) (h : Heap)
    → Owned place h
    → place b ≡ in_use i
    → (h.pool i).alloc_size ≡ size
    → Owned place (set_header b size h)
attach-Owned i b size place h o at e = record {
  pools = o.pools;
  caches = o.caches;
  headers = λ c j. ground (arith, o.headers c j, at, e);
  sizes = o.sizes;
  limit = o.limit;
  counts = o.counts;
}

pub after_init-Owned : Owned (λ b. unborn) after_init
after_init-Owned = record {
  pools = λ b i. refl;
  caches = λ b t i. refl;
  headers = λ b i e. absurd (ground (arith, e));
  sizes = λ i size e. rw (after_init, e) refl;
  limit = λ t i. omega arith;
  counts = λ i. refl;
}
