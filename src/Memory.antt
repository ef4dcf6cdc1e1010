-- ===== src/Memory.antt =====
-- The memory pools: Source/ServerEngine/Memory/Memory.h, Memory.cpp, MemoryPool.h, MemoryPool.cpp and
-- MemoryHeader.h. A block stands for its address, which is that of its `MemoryHeader`; a pool is its
-- place in `_pools`. What `_aligned_malloc` returns is an argument of the operations that call it.
pub mod Classes
pub mod Owners
pub mod Allocated
pub mod Release
mod Tests
use iocp_multi_threading_cha.Prelude.{
  ℕ, ℤ, pos, negsuc, zero, suc, ◌+◌, ◌-◌, ◌*◌, ◌/◌, ◌%◌, Bool, true, false, not, ◌||◌, Option, none,
  some, List, [], ◌∷◌, ◌++◌, ltb, leb, ◌==◌, if◌then◌else◌, length, get_elem?, update,
}

pub record MemoryHeader : Type 0 where
  pub alloc_size : ℕ
  pub magic : ℕ

abbrev pub header_magic : ℕ
header_magic = 2882343476

abbrev pub max_alloc_size : ℕ
max_alloc_size = 4096

-- `_pools`, by the sizes of their blocks, `_poolTable` and `currentPoolIdx` in `Init`.
pub record PoolTable : Type 0 where
  pub sizes : List ℕ
  pub table : ℕ → Option ℕ
  pub current_pool_idx : ℕ

-- The `while` that fills `count` entries of the table from `from` on.
unfoldable pub fill : ℕ → ℕ → ℕ → (ℕ → Option ℕ) → ℕ → Option ℕ
fill pool from zero table = table
fill pool from (suc count) table = fill pool (suc from) count (update table from (some pool))

-- The body of a `for` loop of `Init`.
unfoldable pub add_pool : ℕ → PoolTable → PoolTable
unfolding fill
add_pool size t = record {
  sizes = t.sizes ++ (size ∷ []);
  table = fill (length t.sizes) t.current_pool_idx (suc size - t.current_pool_idx) t.table;
  current_pool_idx = if leb t.current_pool_idx size then suc size else t.current_pool_idx;
}

-- `for (int32 size = ...; size <= limit; size += step)`, on fuel.
unfoldable pub add_pools : ℕ → ℕ → ℕ → ℕ → PoolTable → PoolTable
unfolding add_pool
add_pools zero size limit step t = t
add_pools (suc fuel) size limit step t =
    let rest = add_pools fuel (size + step) limit step (add_pool size t) in
    if leb size limit then rest else t

abbrev pub no_pools : PoolTable
no_pools = record { sizes = []; table = λ n. none; current_pool_idx = 0 }

-- `PoolAllocator::Init`.
unfoldable pub init : PoolTable
unfolding add_pools
init =
    add_pools 9 (2048 + 256) 4096 256
      (add_pools 9 (1024 + 128) 2048 128 (add_pools 33 32 1024 32 no_pools))

-- `poolIdx`, from the size of a pool's blocks.
abbrev pub pool_idx : ℕ → ℕ
pool_idx alloc_size =
    if leb alloc_size 1024
    then alloc_size / 32 - 1
    else if leb alloc_size 2048
    then 32 + (alloc_size - 1024) / 128 - 1
    else 40 + (alloc_size - 2048) / 256 - 1

-- A `MemoryPool`: its free blocks, the last pushed first, and its counters.
pub record MemoryPool : Type 0 where
  pub alloc_size : ℕ
  pub free : List ℕ
  pub alloc_count : ℕ
  pub use_count : ℕ

-- The allocator after `Init`. `cache t i` is thread `t`'s list for pool `i`, its back first.
pub record Heap : Type 0 where
  pub pool : ℕ → MemoryPool
  pub cache : ℕ → ℕ → List ℕ
  pub header : ℕ → MemoryHeader

-- The heap that `Init` leaves: a `MemoryPool` for each size, and no block yet.
abbrev pub after_init : Heap
after_init = record {
  pool = λ i. record {
    alloc_size = elim (get_elem? init.sizes i) [ none ↦ 0 | some size ↦ size ];
    free = [];
    alloc_count = 0;
    use_count = 0;
  };
  cache = λ t i. [];
  header = λ b. record { alloc_size = 0; magic = 0 };
}

pub data Run (A : Type 0) : Type 0 where
  crash : Run A
  returns : A → Heap → Run A

abbrev pub set_pool : ℕ → MemoryPool → Heap → Heap
set_pool i p h = record h { pool = update h.pool i p }

abbrev pub set_cache : ℕ → ℕ → List ℕ → Heap → Heap
set_cache t i blocks h = record h { cache = update h.cache t (update (h.cache t) i blocks) }

-- `new(header)MemoryHeader(size)`.
abbrev pub set_header : ℕ → ℕ → Heap → Heap
set_header b size h = record h {
  header = update h.header b (record { alloc_size = size; magic = header_magic });
}

-- `MemoryPool::Push`. The counters are `int32`, taken modulo 2 ^ 32.
unfoldable pub pool_push : ℕ → ℕ → Heap → Run Unit
pool_push i b h =
    let p = h.pool i in
    if not ((h.header b).magic == header_magic)
    then crash
    else returns tt (
        set_pool i
          (record p { use_count = (p.use_count + 4294967295) % 4294967296; free = b ∷ p.free }) h)

-- What `MemoryPool::Pop` does with the entries of the pool's list; `fresh` is what
-- `_aligned_malloc` returns.
unfoldable pub pop_from : List ℕ → ℕ → Option ℕ → Heap → Run ℕ
pop_from (b ∷ rest) i fresh h =
    let p = h.pool i in
    returns b (set_pool i (record p { use_count = (p.use_count + 1) % 4294967296; free = rest }) h)
pop_from [] i none h = crash
pop_from [] i (some b) h =
    let p = h.pool i in
    let alloc_count = (p.alloc_count + 1) % 4294967296 in
    returns b (
      set_pool i
        (record p { alloc_count = alloc_count; use_count = (p.use_count + 1) % 4294967296 })
        (set_header b p.alloc_size h))

-- `MemoryPool::Pop`.
unfoldable pub pool_pop : ℕ → Option ℕ → Heap → Run ℕ
unfolding pop_from
pool_pop i fresh h = pop_from (h.pool i).free i fresh h

-- `MemoryHeader::AttachHeader` on the block that was found.
unfoldable pub attach : ℕ → Run ℕ → Run (Option ℕ)
attach size crash = crash
attach size (returns b h) = returns (some b) (set_header b size h)

-- `Alloc` from pool `i`, with the thread's list at `idx`.
unfoldable pub alloc_from : ℕ → ℕ → ℕ → Option ℕ → Heap → Run (Option ℕ)
unfolding attach pool_pop
alloc_from t i idx fresh h = elim (h.cache t idx) [
  | b ∷ rest ↦ attach (h.pool i).alloc_size (returns b (set_cache t idx rest h))
  | [] ↦ attach (h.pool i).alloc_size (pool_pop i fresh h)
]

-- A block that `_aligned_malloc` returns to `Alloc` for a large size.
unfoldable pub alloc_large : ℕ → Option ℕ → Heap → Run (Option ℕ)
alloc_large size none h = crash
alloc_large size (some b) h = returns (some b) (set_header b size h)

-- `PoolAllocator::Alloc` in thread `t`, with the table that `Init` leaves.
unfoldable pub alloc : ℕ → ℤ → Option ℕ → Heap → Run (Option ℕ)
unfolding alloc_from alloc_large
alloc t (negsuc n) fresh h = returns none h
alloc t (pos size) fresh h =
    if size == 0
    then returns none h
    else if ltb max_alloc_size size
    then alloc_large size fresh h
    else elim (init.table size) [
      | none ↦ crash
      | some i ↦ alloc_from t i (pool_idx (h.pool i).alloc_size) fresh h
    ]

abbrev pub batch_size : ℕ
batch_size = 16

abbrev pub max_local_cache : ℕ
max_local_cache = 48

-- The `for` loop of `Release` that returns blocks to the pool. `back()` of an empty list, which is
-- undefined, is a crash.
unfoldable pub flush : ℕ → ℕ → ℕ → ℕ → Heap → Run Unit
unfolding pool_push
flush zero t i idx h = returns tt h
flush (suc n) t i idx h = elim (h.cache t idx) [
  | [] ↦ crash
  | b ∷ rest ↦ elim (pool_push i b (set_cache t idx rest h)) [
    | crash ↦ crash
    | returns tt h' ↦ flush n t i idx h'
  ]
]

-- `localList.push_back(header)`.
unfoldable pub keep : ℕ → ℕ → ℕ → Run Unit → Run Unit
keep t idx b crash = crash
keep t idx b (returns tt h) = returns tt (set_cache t idx (b ∷ h.cache t idx) h)

-- `Release` to pool `i`.
unfoldable pub release_to : ℕ → ℕ → ℕ → ℕ → Heap → Run Unit
unfolding flush keep
release_to t i idx b h =
    if ltb (length (h.cache t idx)) max_local_cache
    then keep t idx b (returns tt h)
    else keep t idx b (flush batch_size t i idx h)

-- `PoolAllocator::Release` in thread `t`; what `_aligned_free` takes back is the system's.
unfoldable pub release : ℕ → Option ℕ → Heap → Run Unit
unfolding release_to
release t none h = returns tt h
release t (some b) h =
    let size = (h.header b).alloc_size in
    if not ((h.header b).magic == header_magic)
    then crash
    else if ltb max_alloc_size size
    then returns tt h
    else elim (init.table size) [ none ↦ crash | some i ↦ release_to t i (pool_idx size) b h ]

-- `GetTotalAllocCount` and `GetTotalUseCount` over the first `n` pools.
unfoldable pub get_total_alloc_count : ℕ → Heap → ℕ
get_total_alloc_count zero h = 0
get_total_alloc_count (suc n) h = (get_total_alloc_count n h + (h.pool n).alloc_count) % 4294967296

unfoldable pub get_total_use_count : ℕ → Heap → ℕ
get_total_use_count zero h = 0
get_total_use_count (suc n) h = (get_total_use_count n h + (h.pool n).use_count) % 4294967296
